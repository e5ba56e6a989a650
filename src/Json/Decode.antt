-- ===== src/Json/Decode.antt =====
-- What `json.Unmarshal` does with the struct fields of the mailu package. `none` is an error. A null sets a
-- pointer to nil and leaves a plain field alone; a value of another kind, or an integer that an `int` does
-- not hold, is an error; a member that names no field is passed over; where a name comes twice the later
-- member counts.
use Prim.Native.Char.{code}
use mathlib.Core.Option
use mailu_operator.Common.{
  ℕ, ◌+◌, String, ◌≡◌, refl, Bool, true, false, ◌&&◌, List, [], ◌∷◌, Option, none, some, leb, ◌==◌,
  if◌then◌else◌,
}
use mailu_operator.Common.Int.{ℤ, fits_int64}
use mailu_operator.Json.{
  Json, null, bool, num, str, arr, obj, Items, nil, cons, Members, end, member, items,
}

-- Names are compared without regard to case, as by `foldName`: besides the ASCII capitals, U+017F folds
-- to `s` and U+212A to `k`.
abbrev fold_char : ℕ → ℕ
fold_char c =
    if leb 65 c && leb c 90
    then c + 32
    else if c == 0x17f
    then 115
    else if c == 0x212a
    then 107
    else c

unfoldable pub same_key : String → String → Bool
same_key String.[] String.[] = true
same_key String.[] (String.◌∷◌ d t) = false
same_key (String.◌∷◌ c s) String.[] = false
same_key (String.◌∷◌ c s) (String.◌∷◌ d t) =
    fold_char (code c) == fold_char (code d) && same_key s t

-- A field of type `*bool`.
unfoldable pub decode_bool : Json → Option (Option Bool)
decode_bool null = some none
decode_bool (bool b) = some (some b)
decode_bool _ = none

-- A field of type `*string`.
unfoldable pub decode_string : Json → Option (Option String)
decode_string null = some none
decode_string (str s) = some (some s)
decode_string _ = none

-- A field of type `string`, from its present value.
unfoldable pub decode_text : String → Json → Option String
decode_text old null = some old
decode_text old (str s) = some s
decode_text old _ = none

-- A field of type `*int` or `*int64`.
unfoldable pub decode_int : Json → Option (Option ℤ)
decode_int null = some none
decode_int (num n) = if fits_int64 n then some (some n) else none
decode_int _ = none

decode_items : Items → Option (List String)
decode_items nil = some []
decode_items (cons j l) = elim (decode_text "" j) [
  | none ↦ none
  | some s ↦ Option.map (λ t. s ∷ t) (decode_items l)
]

-- A field of type `*[]string`. A pointer to a nil slice is not among the results.
unfoldable pub decode_strings : Json → Option (Option (List String))
unfolding decode_items decode_text
decode_strings null = some none
decode_strings (arr l) = Option.map some (decode_items l)
decode_strings _ = none

module _ {A : Type 0} (step : A → String → Json → Option A) where
  unfoldable pub decode_members : Members → A → Option A
  decode_members end a = some a
  decode_members (member n j m) a = elim (step a n j) [ none ↦ none | some b ↦ decode_members m b ]

  -- `found := &T{}; json.Unmarshal(body, &found)`: the document `null` sets `found` itself to nil.
  unfoldable pub decode_object : A → Json → Option (Option A)
  unfolding decode_members
  decode_object a null = some none
  decode_object a (obj m) = Option.map some (decode_members m a)
  decode_object a _ = none

decode_items-items : (l : List String) → decode_items (items l) ≡ some l
unfolding decode_items decode_text items
decode_items-items [] = refl
decode_items-items (s ∷ l) = rw (decode_items-items l)

-- A slice that is not nil is read back as it was written.
pub decode_strings-items : (l : List String) → decode_strings (arr (items l)) ≡ some (some l)
unfolding decode_strings
decode_strings-items l = rw (decode_items-items l)

same_key_folds :
    (same_key "Enable_Imap" "enable_imap" ≡ true) × (same_key "enabled" "enable_imap" ≡ false)
unfolding same_key
same_key_folds = (refl, refl)

pub decode_int-num : (z : ℤ) → fits_int64 z ≡ true → decode_int (num z) ≡ some (some z)
unfolding decode_int
decode_int-num z h = rw h
