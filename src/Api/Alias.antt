-- ===== src/Api/Alias.antt =====
-- `mailu.Alias` of pkg/mailu/client.go, and its documents.
pub mod RoundTrip
use mathlib.Core.Option
use mailu_operator.Common.{
  String, ◌≡◌, refl, Bool, List, [], ◌∷◌, Option, none, some, if◌then◌else◌,
}
use mailu_operator.Json.{Json, str, obj, items}
use mailu_operator.Json.Object.{
  Fields, members, members-injective, bool_field, string_field, strings_field, bool_field-injective,
  string_field-injective, strings_field-injective,
}
use mailu_operator.Json.Decode.{
  same_key, decode_bool, decode_string, decode_strings, decode_text, decode_object,
}

-- `none` is a nil pointer. A slice behind a pointer is nil too, or a list.
pub record Alias : Type 0 where
  pub comment : Option String
  pub destination : Option (Option (List String))
  pub email : String
  pub wildcard : Option Bool

-- `mailu.Alias{}`
abbrev pub empty : Alias
empty = record { comment = none; destination = none; email = ""; wildcard = none }

-- The tagged fields, in the order of the struct.
abbrev fields : Alias → Fields
fields a =
    ("comment", string_field a.comment)
    ∷ ("destination", strings_field a.destination)
    ∷ ("email", some (str a.email))
    ∷ ("wildcard", bool_field a.wildcard)
    ∷ []

-- `json.Marshal(alias)`
unfoldable pub marshal : Alias → Json
unfolding members items
marshal a = obj (members (fields a))

set_member : Alias → String → Json → Option Alias
unfolding same_key decode_bool decode_string decode_strings decode_text
set_member a k j =
    if same_key "comment" k
    then Option.map (λ x. record a { comment = x }) (decode_string j)
    else if same_key "destination" k
    then Option.map (λ x. record a { destination = Option.map some x }) (decode_strings j)
    else if same_key "email" k
    then Option.map (λ x. record a { email = x }) (decode_text a.email j)
    else if same_key "wildcard" k
    then Option.map (λ x. record a { wildcard = x }) (decode_bool j)
    else some a

-- `foundAlias := &mailu.Alias{}; json.Unmarshal(body, &foundAlias)`
unfoldable pub unmarshal : Json → Option (Option Alias)
unfolding set_member decode_object
unmarshal = decode_object set_member empty

fields-injective : (a b : Alias) → fields a ≡ fields b → a ≡ b
fields-injective a b h = λ i. record {
  comment = string_field-injective a.comment b.comment (cc) i;
  destination = strings_field-injective a.destination b.destination (cc) i;
  email = same_email i;
  wildcard = bool_field-injective a.wildcard b.wildcard (cc) i;
}
  where
    same_email : a.email ≡ b.email
    same_email = cc

-- Two aliases that marshal to the same document are the same.
pub marshal-injective : (a b : Alias) → marshal a ≡ marshal b → a ≡ b
unfolding marshal
marshal-injective a b h =
    fields-injective a b (members-injective (fields a) (fields b) refl refl (cc))
