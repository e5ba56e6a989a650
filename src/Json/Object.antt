-- ===== src/Json/Object.antt =====
-- What `json.Marshal` makes of a struct: the members in the order of the fields, without the fields that
-- are tagged `omitempty` and hold a nil pointer.
use mailu_operator.Common.{
  String, ◌≡◌, refl, Bool, true, ◌&&◌, not, List, [], ◌∷◌, Option, none, some, arith, str_eq,
  eq_iff,
}
use mailu_operator.Common.Int.{ℤ}
use mailu_operator.Json.{Json, null, bool, num, str, arr, Members, member, end, items}

-- The tag of each field, and its value unless the field is left out.
abbrev pub Fields : Type 0
Fields = List (String × Option Json)

unfoldable pub members : Fields → Members
members [] = end
members ((n, none) ∷ fs) = members fs
members ((n, some j) ∷ fs) = member n j (members fs)

abbrev pub keys : Fields → List String
keys [] = []
keys ((n, x) ∷ fs) = n ∷ keys fs

abbrev pub absent : String → List String → Bool
absent n [] = true
absent n (k ∷ ks) = not (str_eq k n) && absent n ks

-- No struct has two fields of one tag.
abbrev pub distinct : List String → Bool
distinct [] = true
distinct (k ∷ ks) = absent k ks && distinct ks

members-ne-member :
    (n : String) (j : Json) (m : Members) (fs : Fields)
    → absent n (keys fs) ≡ true
    → members fs ≡ member n j m
    → ⊥
unfolding members
members-ne-member n j m [] h e = cc
members-ne-member n j m ((k, none) ∷ fs) h e = members-ne-member n j m fs (ground arith) e
members-ne-member n j m ((k, some x) ∷ fs) h e = ground (arith, eq_iff k n)

-- A struct is determined by the document that it marshals to.
pub members-injective :
    (fs gs : Fields)
    → distinct (keys fs) ≡ true
    → keys fs ≡ keys gs
    → members fs ≡ members gs
    → fs ≡ gs
unfolding members
members-injective [] [] d k e = refl
members-injective [] (g ∷ gs) d k e = cc
members-injective (f ∷ fs) [] d k e = cc
members-injective ((m, none) ∷ fs) ((n, none) ∷ gs) d k e =
    cc (members-injective fs gs (ground arith) (cc) e)
members-injective ((m, some x) ∷ fs) ((n, some y) ∷ gs) d k e =
    cc (members-injective fs gs (ground arith) (cc) (cc))
members-injective ((m, none) ∷ fs) ((n, some y) ∷ gs) d k e =
    absurd (members-ne-member m y (members gs) fs (ground arith) (cc))
members-injective ((m, some x) ∷ fs) ((n, none) ∷ gs) d k e =
    absurd (members-ne-member m x (members fs) gs (ground arith) (cc))

-- A field of type `*bool`, `*string`, `*int` or `*int64`.
abbrev pub bool_field : Option Bool → Option Json
bool_field none = none
bool_field (some b) = some (bool b)

abbrev pub string_field : Option String → Option Json
string_field none = none
string_field (some s) = some (str s)

abbrev pub int_field : Option ℤ → Option Json
int_field none = none
int_field (some n) = some (num n)

-- A field of type `*[]string`. A pointer to a nil slice is not nil, and is written as `null`.
abbrev pub strings_field : Option (Option (List String)) → Option Json
strings_field none = none
strings_field (some none) = some null
strings_field (some (some l)) = some (arr (items l))

pub bool_field-injective : (a b : Option Bool) → bool_field a ≡ bool_field b → a ≡ b
bool_field-injective a b h = ground arith

pub string_field-injective : (a b : Option String) → string_field a ≡ string_field b → a ≡ b
string_field-injective a b h = ground arith

pub int_field-injective : (a b : Option ℤ) → int_field a ≡ int_field b → a ≡ b
int_field-injective a b h = ground arith

items-injective : (k l : List String) → items k ≡ items l → k ≡ l
unfolding items
items-injective [] [] h = refl
items-injective [] (t ∷ l) h = cc
items-injective (s ∷ k) [] h = cc
items-injective (s ∷ k) (t ∷ l) h = cc (items-injective k l (cc))

pub strings_field-injective :
    (a b : Option (Option (List String))) → strings_field a ≡ strings_field b → a ≡ b
strings_field-injective (some (some k)) (some (some l)) h = cc (items-injective k l (cc))
strings_field-injective (some (some k)) (some none) h = cc
strings_field-injective (some none) (some (some l)) h = cc
strings_field-injective none b h = ground arith
strings_field-injective a none h = ground arith
strings_field-injective (some none) (some none) h = refl
