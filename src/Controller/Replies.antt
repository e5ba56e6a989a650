-- ===== src/Controller/Replies.antt =====
-- Which answers of the Mailu API the controllers of internal/controller retry, and which they take for
-- success.
use mailu_operator.Common.{
  ℕ, String, ◌≡◌, ◌⊎◌, ◌↔◌, true, false, Option, none, some, is_some, arith,
}
use mailu_operator.Common.Result.{Result, ok, err}
use mailu_operator.Json.{Json}
use mailu_operator.Http.{Response, Payload, document, malformed, Net}
use mailu_operator.Controller.Reply.{create_reply, update_reply, delete_reply, find_reply}

abbrev pub answer : ℕ → Payload → Result Response
answer code body = ok (record { status_code = code; body = ok body })

-- Bad gateway, gateway timeout or service unavailable.
abbrev pub IsTransient : ℕ → Type 0
IsTransient code = (code ≡ 502) ⊎ ((code ≡ 503) ⊎ (code ≡ 504))

-- An answer to a creation whose body was read has no error exactly for the statuses 200, 201 and 409, and is
-- retried exactly for 409, 502, 503 and 504.
pub create_reply_table :
    (code : ℕ) (body : Payload)
    → ((create_reply (answer code body)).error ≡ none
        ↔ ((code ≡ 200) ⊎ ((code ≡ 201) ⊎ (code ≡ 409))))
      × ((create_reply (answer code body)).retry ≡ true ↔ ((code ≡ 409) ⊎ IsTransient code))
unfolding create_reply
create_reply_table code body = ground arith

-- An answer to an update whose body was read has no error exactly for the statuses 200 and 204, and is
-- retried exactly for 502, 503 and 504. So none is retried without an error, whatever the answer is.
pub update_reply_table :
    (code : ℕ) (body : Payload) (r : Result Response)
    → ((update_reply (answer code body)).error ≡ none ↔ ((code ≡ 200) ⊎ (code ≡ 204)))
      × ((update_reply (answer code body)).retry ≡ true ↔ IsTransient code)
      × (((update_reply r).retry ≡ false) ⊎ (is_some (update_reply r).error ≡ true))
unfolding update_reply
update_reply_table code body r = ground arith

-- An answer to a deletion whose body was read has no error exactly for the statuses 200 and 404, and is
-- retried exactly for 502, 503 and 504. So none is retried without an error, whatever the answer is.
pub delete_reply_table :
    (code : ℕ) (body : Payload) (r : Result Response)
    → ((delete_reply (answer code body)).error ≡ none ↔ ((code ≡ 200) ⊎ (code ≡ 404)))
      × ((delete_reply (answer code body)).retry ≡ true ↔ IsTransient code)
      × (((delete_reply r).retry ≡ false) ⊎ (is_some (delete_reply r).error ≡ true))
unfolding delete_reply
delete_reply_table code body r = ground arith

module _ (net : Net) {A : Type 0} (unmarshal : Json → Option (Option A)) where
  -- The body is a document that unmarshals to `o`.
  abbrev pub Decodes : Payload → Option A → Type 0
  Decodes (malformed e) o = ⊥
  Decodes (document j) o = unmarshal j ≡ some o

  -- The body is no document, or one that does not fit.
  abbrev pub Undecodable : Payload → Type 0
  Undecodable (malformed e) = Unit
  Undecodable (document j) = unmarshal j ≡ none

  -- An answer to a lookup whose body was read finds nothing and makes no error in two cases alone: the
  -- status is 404, or it is 200 and the body is a document that unmarshals to nil. It finds `a` exactly if
  -- the status is 200 and the body is a document that unmarshals to `a`. It is retried exactly for 502, 503
  -- and 504, and for 200 with a body that does not unmarshal. A call that fails makes its error with no
  -- retry, and a body that cannot be read its error with a retry.
  pub find_reply_table :
      (code : ℕ) (body : Payload) (a : A) (e : String)
      → let l = find_reply net unmarshal (answer code body) in
        (((l.found ≡ none) × (l.error ≡ none))
          ↔ ((code ≡ 404) ⊎ ((code ≡ 200) × Decodes body none)))
        × ((l.found ≡ some a) ↔ ((code ≡ 200) × Decodes body (some a)))
        × ((l.retry ≡ true) ↔ (IsTransient code ⊎ ((code ≡ 200) × Undecodable body)))
        × (find_reply net unmarshal (err e)
            ≡ record { found = none; retry = false; error = some e })
        × (find_reply net unmarshal (ok (record { status_code = code; body = err e }))
            ≡ record { found = none; retry = true; error = some e })
  unfolding find_reply
  find_reply_table code (malformed m) a e = ground arith
  find_reply_table code (document j) a e = ground arith
