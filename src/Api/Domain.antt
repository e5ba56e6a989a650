-- ===== src/Api/Domain.antt =====
-- `mailu.Domain` of pkg/mailu/client.go, and its documents.
pub mod RoundTrip
use mathlib.Core.Option
use mailu_operator.Common.{
  String, ◌≡◌, refl, Bool, List, [], ◌∷◌, Option, none, some, if◌then◌else◌,
}
use mailu_operator.Common.Int.{ℤ}
use mailu_operator.Json.{Json, str, obj, items}
use mailu_operator.Json.Object.{
  Fields, members, members-injective, bool_field, string_field, int_field, strings_field,
  bool_field-injective, string_field-injective, int_field-injective, strings_field-injective,
}
use mailu_operator.Json.Decode.{
  same_key, decode_bool, decode_string, decode_text, decode_int, decode_strings, decode_object,
}

-- `none` is a nil pointer. A slice behind a pointer is nil too, or a list.
pub record Domain : Type 0 where
  pub alternatives : Option (Option (List String))
  pub comment : Option String
  pub max_aliases : Option ℤ
  pub max_quota_bytes : Option ℤ
  pub max_users : Option ℤ
  pub name : String
  pub signup_enabled : Option Bool

-- `mailu.Domain{}`
abbrev pub empty : Domain
empty = record {
  alternatives = none;
  comment = none;
  max_aliases = none;
  max_quota_bytes = none;
  max_users = none;
  name = "";
  signup_enabled = none;
}

-- The tagged fields, in the order of the struct.
abbrev fields : Domain → Fields
fields d =
    ("alternatives", strings_field d.alternatives)
    ∷ ("comment", string_field d.comment)
    ∷ ("max_aliases", int_field d.max_aliases)
    ∷ ("max_quota_bytes", int_field d.max_quota_bytes)
    ∷ ("max_users", int_field d.max_users)
    ∷ ("name", some (str d.name))
    ∷ ("signup_enabled", bool_field d.signup_enabled)
    ∷ []

-- `json.Marshal(domain)`
unfoldable pub marshal : Domain → Json
unfolding members items
marshal d = obj (members (fields d))

set_member : Domain → String → Json → Option Domain
unfolding same_key decode_bool decode_string decode_text decode_int decode_strings
set_member d k j =
    if same_key "alternatives" k
    then Option.map (λ x. record d { alternatives = Option.map some x }) (decode_strings j)
    else if same_key "comment" k
    then Option.map (λ x. record d { comment = x }) (decode_string j)
    else if same_key "max_aliases" k
    then Option.map (λ x. record d { max_aliases = x }) (decode_int j)
    else if same_key "max_quota_bytes" k
    then Option.map (λ x. record d { max_quota_bytes = x }) (decode_int j)
    else if same_key "max_users" k
    then Option.map (λ x. record d { max_users = x }) (decode_int j)
    else if same_key "name" k
    then Option.map (λ x. record d { name = x }) (decode_text d.name j)
    else if same_key "signup_enabled" k
    then Option.map (λ x. record d { signup_enabled = x }) (decode_bool j)
    else some d

-- `foundDomain := &mailu.Domain{}; json.Unmarshal(body, &foundDomain)`
unfoldable pub unmarshal : Json → Option (Option Domain)
unfolding set_member decode_object
unmarshal = decode_object set_member empty

fields-injective : (d e : Domain) → fields d ≡ fields e → d ≡ e
fields-injective d e h = λ i. record {
  alternatives = strings_field-injective d.alternatives e.alternatives (cc) i;
  comment = string_field-injective d.comment e.comment (cc) i;
  max_aliases = int_field-injective d.max_aliases e.max_aliases (cc) i;
  max_quota_bytes = int_field-injective d.max_quota_bytes e.max_quota_bytes (cc) i;
  max_users = int_field-injective d.max_users e.max_users (cc) i;
  name = same_name i;
  signup_enabled = bool_field-injective d.signup_enabled e.signup_enabled (cc) i;
}
  where
    same_name : d.name ≡ e.name
    same_name = cc

-- Two domains that marshal to the same document are the same.
pub marshal-injective : (d e : Domain) → marshal d ≡ marshal e → d ≡ e
unfolding marshal
marshal-injective d e h =
    fields-injective d e (members-injective (fields d) (fields e) refl refl (cc))
