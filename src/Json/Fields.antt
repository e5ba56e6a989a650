-- ===== src/Json/Fields.antt =====
-- Reading back the members that a struct was written to, one field at a time.
use mailu_operator.Common.{String, ◌≡◌, refl, Bool, true, List, [], ◌∷◌, Option, none, some}
use mailu_operator.Common.Int.{ℤ, fits_int64}
use mailu_operator.Json.{Json, Members, bool, num, str, arr, obj, items}
use mailu_operator.Json.Object.{Fields, members, bool_field, string_field, int_field, strings_field}
use mailu_operator.Json.Decode.{decode_members, decode_object}

-- The integer, if there is one, is one that an `int` holds.
abbrev pub Fits : Option ℤ → Type 0
Fits none = Unit
Fits (some z) = fits_int64 z ≡ true

-- The slice behind the pointer, if there is one, is not nil.
abbrev pub NotNil : Option (Option (List String)) → Type 0
NotNil none = Unit
NotNil (some none) = ⊥
NotNil (some (some l)) = Unit

module _ {A : Type 0} (step : A → String → Json → Option A) (n : String) (fs : Fields) where
  abbrev Reads : Option Json → A → A → Type 0
  Reads x a b = decode_members step (members ((n, x) ∷ fs)) a ≡ decode_members step (members fs) b

  -- A field that is there is read by one step.
  pub read_value : (j : Json) (a b : A) → step a n j ≡ some b → Reads (some j) a b
  unfolding decode_members members
  read_value j a b h = rw h

  pub read_bool :
      (set : Option Bool → A) (x : Option Bool)
      → ((b : Bool) → step (set none) n (bool b) ≡ some (set (some b)))
      → Reads (bool_field x) (set none) (set x)
  unfolding members
  read_bool set none h = refl
  read_bool set (some b) h = read_value (bool b) (set none) (set (some b)) (h b)

  pub read_string :
      (set : Option String → A) (x : Option String)
      → ((s : String) → step (set none) n (str s) ≡ some (set (some s)))
      → Reads (string_field x) (set none) (set x)
  unfolding members
  read_string set none h = refl
  read_string set (some s) h = read_value (str s) (set none) (set (some s)) (h s)

  pub read_int :
      (set : Option ℤ → A) (x : Option ℤ)
      → Fits x
      → ((z : ℤ) → fits_int64 z ≡ true → step (set none) n (num z) ≡ some (set (some z)))
      → Reads (int_field x) (set none) (set x)
  unfolding members
  read_int set none f h = refl
  read_int set (some z) f h = read_value (num z) (set none) (set (some z)) (h z f)

  pub read_strings :
      (set : Option (Option (List String)) → A) (x : Option (Option (List String)))
      → NotNil x
      → ((l : List String) → step (set none) n (arr (items l)) ≡ some (set (some (some l))))
      → Reads (strings_field x) (set none) (set x)
  unfolding members
  read_strings set none k h = refl
  read_strings set (some none) k h = absurd k
  read_strings set (some (some l)) k h =
      read_value (arr (items l)) (set none) (set (some (some l))) (h l)

pub read_end :
    {A : Type 0} (step : A → String → Json → Option A) (a : A)
    → decode_members step (members []) a ≡ some a
unfolding decode_members members
read_end step a = refl

-- Unmarshalling a document with members, from what reading the members gives.
pub decode_object_members :
    {A : Type 0} (step : A → String → Json → Option A) (m : Members) (a b : A)
    → decode_members step m a ≡ some b
    → decode_object step a (obj m) ≡ some (some b)
unfolding decode_object
decode_object_members step m a b h = rw h
