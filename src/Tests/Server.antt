-- ===== src/Tests/Server.antt =====
-- A small Mailu server for one kind of object, which keeps the documents that it is sent, by name.
pub mod Domains
pub mod Aliases
use mailu_operator.Common.{
  ℕ, ◌==◌, String, ◌<>◌, ◌≡◌, ◌≢◌, refl, sym, ap, ◌∙◌, ◌⊎◌, Bool, true, false, List, [], ◌∷◌,
  Option, none, some, arith, str_eq, eq_iff, eq_refl, if◌then◌else◌, Bool-cases, Option-cases, inl,
  inr,
}
use Prim.Native.Char.{code}
use text.Mathlib.TextLemmas.{cons-append, nil-append}
use mailu_operator.Common.Result.{Result, ok, err}
use mailu_operator.Json.{Json, null, deep_equal, deep_equal_iff}
use mailu_operator.Http.{
  Net, Request, Response, Payload, document, Method, get, post, patch, delete,
}
use mailu_operator.Client.Calls.{Call}
use mailu_operator.Controller.Replies.{answer}
use mailu_operator.Controller.Mailu.{IsMailu}

-- What follows a prefix.
unfoldable pub strip : String → String → Option String
strip String.[] s = some s
strip (String.◌∷◌ c p) String.[] = none
strip (String.◌∷◌ c p) (String.◌∷◌ d s) =
    let rest = strip p s in if code c == code d then rest else none

strip-append : (p t : String) → strip p (p <> t) ≡ some t
unfolding strip
strip-append String.[] t = ap some (nil-append t)
strip-append (String.◌∷◌ c p) t = rw (cons-append c p t) (ground (arith, strip-append p t))

abbrev pub Table : Type 0
Table = String → Option Json

abbrev pub set : Table → String → Option Json → Table
set w n j m = if str_eq m n then j else w m

set_same : (w : Table) (n : String) (j : Option Json) → set w n j n ≡ j
set_same w n j = rw (eq_refl n) refl

set_other : (w : Table) (n : String) (j : Option Json) (m : String) → m ≢ n → set w n j m ≡ w m
set_other w n j m other = elim (Bool-cases (str_eq m n)) [
  | inl same ↦ absurd (other ((eq_iff m n).0 same))
  | inr differs ↦ rw differs refl
]

module _ {A : Type 0} (marshal : A → Json) (unmarshal : Json → Option (Option A))
    (name : A → String) (root : String) where
  -- A document that reads back as itself.
  abbrev pub read : Json → Option A
  read j = elim (unmarshal j) [
    | some (some a) ↦ if deep_equal (marshal a) j then some a else none
    | _ ↦ none
  ]

  abbrev pub stored : Table → String → Option A
  stored w n = elim (w n) [ none ↦ none | some j ↦ read j ]

  -- The name in an address.
  abbrev item : String → Option String
  item url = elim (strip "http://mailu/api/v1/" url) [
    | none ↦ none
    | some path ↦ elim (strip "." path) [ none ↦ none | some rest ↦ strip root rest ]
  ]

  abbrev on_item : Request → Table → (String → Result Response × Table) → Result Response × Table
  on_item req w f = elim (item req.url) [ none ↦ (answer 400 (document null), w) | some n ↦ f n ]

  abbrev look_up : String → Table → Result Response
  look_up n w = elim (w n) [
    | none ↦ answer 404 (document null)
    | some j ↦ elim (read j) [
      | none ↦ answer 404 (document null)
      | some a ↦ answer 200 (document j)
    ]
  ]

  abbrev add : Json → Table → Result Response × Table
  add j w = elim (read j) [
    | none ↦ (answer 400 (document null), w)
    | some a ↦ (answer 200 (document null), set w (name a) (some j))
  ]

  unfoldable pub serve : Request → Table → Result Response × Table
  unfolding strip
  serve req w = elim req.method [
    | get ↦ on_item req w λ n. (look_up n w, w)
    | post ↦ elim req.body [ none ↦ (answer 400 (document null), w) | some j ↦ add j w ]
    | patch ↦ elim req.body [
      | none ↦ (answer 400 (document null), w)
      | some j ↦ on_item req w λ n. (answer 200 (document null), set w n (some j))
    ]
    | delete ↦ on_item req w λ n. (answer 200 (document null), set w n none)
  ]

  abbrev pub net : Net
  net = record {
    World = Table;
    Doer = Unit {0};
    http_client = tt;
    do_request = λ doer req w. serve req w;
    Url = String;
    style_param = λ name value. ok value;
    parse_url = λ text. ok text;
    resolve = λ base reference. ok (base <> reference);
    url_text = λ u. u;
    request_error = λ m url. none;
    mismatch = λ j. "cannot unmarshal";
  }

  abbrev pub address : String → String
  address n = "http://mailu/api/v1/" <> ("." <> (root <> n))

  item-address : (n : String) → item (address n) ≡ some n
  item-address n = ground (
    arith,
    strip-append "http://mailu/api/v1/" ("." <> (root <> n)),
    strip-append "." (root <> n),
    strip-append root n,
  )

  read-marshal : (a : A) → unmarshal (marshal a) ≡ some (some a) → read (marshal a) ≡ some a
  read-marshal a h = ground (arith, (deep_equal_iff (marshal a) (marshal a)).1 refl)

  read_is_document : (j : Json) (a : A) → read j ≡ some a → unmarshal j ≡ some (some a)
  read_is_document j a h = ground arith

  -- A call that sends one request.
  abbrev pub Sends : Method → String → Option Json → Call net → Type 0
  Sends m url body c =
      (header : List (String × String)) × ((w : Table)
        → c w ≡ serve (record { method = m; url = url; header = header; body = body }) w)

  module _ (IsWritable : A → Type 0) (Covers : A → A → Type 0)
      (round_trip : (a : A) → IsWritable a → unmarshal (marshal a) ≡ some (some a))
      (injective : (a b : A) → marshal a ≡ marshal b → a ≡ b) (Covers-all : (a : A) → Covers a a)
      (find : String → Call net) (create : A → Call net) (update : String → A → Call net)
      (remove : String → Call net) (find_sends : (n : String) → Sends get (address n) none (find n))
      (create_sends : (a : A) → (url : String) × Sends post url (some (marshal a)) (create a))
      (update_sends : (n : String) (a : A)
        → Sends patch (address n) (some (marshal a)) (update n a))
      (delete_sends : (n : String) → Sends delete (address n) none (remove n)) where
    finds : (n : String) (w : Table) → find n w ≡ (look_up n w, w)
    unfolding serve
    finds n w = let (header, e) = find_sends n in e w ∙ ground (arith, item-address n)

    creates : (a : A) (w : Table) → create a w ≡ add (marshal a) w
    unfolding serve
    creates a w = let (url, sent) = create_sends a in let (header, e) = sent in e w

    updates :
        (n : String) (a : A) (w : Table)
        → update n a w ≡ (answer 200 (document null), set w n (some (marshal a)))
    unfolding serve
    updates n a w = let (header, e) = update_sends n a in e w ∙ ground (arith, item-address n)

    deletes : (n : String) (w : Table) → remove n w ≡ (answer 200 (document null), set w n none)
    unfolding serve
    deletes n w = let (header, e) = delete_sends n in e w ∙ ground (arith, item-address n)

    stored-set :
        (w : Table) (n : String) (a : A)
        → IsWritable a
        → stored (set w n (some (marshal a))) n ≡ some a
    stored-set w n a writable =
        ground (arith, set_same w n (some (marshal a)), read-marshal a (round_trip a writable))

    stored_other :
        (w : Table) (n m : String) (j : Option Json) → m ≢ n → stored (set w n j) m ≡ stored w m
    stored_other w n m j other =
        ap (λ (x : Option Json). elim x [ none ↦ none | some k ↦ read k ]) (set_other w n j m other)

    read_name : (a b : A) → read (marshal a) ≡ some b → b ≡ a
    read_name a b h = sym (injective a b (ground (arith, deep_equal_iff (marshal b) (marshal a))))

    found_document :
        (n : String) (w : Table) (a : A)
        → stored w n ≡ some a
        → (j : Json) × (unmarshal j ≡ some (some a)) × (look_up n w ≡ answer 200 (document j))
    found_document n w a present = elim (Option-cases (w n)) [
      | inl absent ↦ absurd (ground arith)
      | inr (j, there) ↦
          let reads : read j ≡ some a = ground arith in
          (j, read_is_document j a reads, ground arith)
    ]

    added :
        (a : A) (w : Table)
        → IsWritable a
        → add (marshal a) w ≡ (answer 200 (document null), set w (name a) (some (marshal a)))
    added a w writable = ground (arith, read-marshal a (round_trip a writable))

    added_other :
        (a : A) (w : Table) (m : String) → m ≢ name a → stored (add (marshal a) w).1 m ≡ stored w m
    added_other a w m other = elim (Option-cases (read (marshal a))) [
      | inl unread ↦ rw (add, unread) refl
      | inr (b, reads) ↦
          rw (add, reads)
            (stored_other w (name b) m (some (marshal a))
              (λ p. other (p ∙ ap name (read_name a b reads))))
    ]

    pub server-IsMailu :
        IsMailu net unmarshal name IsWritable Covers find create update remove stored
    server-IsMailu = record {
      find_stored = λ n w a present. rw (finds n w) (found_document n w a present);
      find_missing = λ n w absent. (document null, rw (finds n w) (ground arith));
      find_keeps = λ n m w. rw (finds n w) refl;
      create_answers =
          λ a w writable absent. (document null, rw (creates a w) (rw (added a w writable) refl));
      create_stores = λ a w writable absent. (
        a,
        rw (creates a w) (rw (added a w writable) (stored-set w (name a) a writable)),
        Covers-all a,
      );
      update_answers = λ a b w writable present. (document null, rw (updates (name a) a w) refl);
      update_stores = λ a b w writable present.
          (a, rw (updates (name a) a w) (stored-set w (name a) a writable), Covers-all a);
      delete_answers = λ n w. (200, document null, inl refl, rw (deletes n w) refl);
      delete_empties = λ n w. rw (deletes n w) (ground (arith, set_same w n none));
      create_keeps = λ a w m other. rw (creates a w) (added_other a w m other);
      update_keeps =
          λ n a w m other. rw (updates n a w) (stored_other w n m (some (marshal a)) other);
      delete_keeps = λ n w m other. rw (deletes n w) (stored_other w n m none other);
    }
