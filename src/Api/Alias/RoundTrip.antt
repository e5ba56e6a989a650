-- ===== src/Api/Alias/RoundTrip.antt =====
-- The documents of `mailu.Alias` are read back as they were written.
use mailu_operator.Common.{◌≡◌, refl, ◌∙◌, some}
use mailu_operator.Json.{str}
use mailu_operator.Json.Object.{members}
use mailu_operator.Json.Decode.{decode_members, decode_strings-items}
use mailu_operator.Json.Fields.{
  NotNil, read_value, read_bool, read_string, read_strings, read_end, decode_object_members,
}
use mailu_operator.Api.Alias.{Alias, empty, fields, set_member, marshal, unmarshal}

-- No pointer leads to a nil slice.
pub record IsWritable (a : Alias) : Type 0 where
  pub destination_not_nil : NotNil a.destination

abbrev with_comment : Alias → Alias
with_comment a = record empty { comment = a.comment }

abbrev with_destination : Alias → Alias
with_destination a = record (with_comment a) { destination = a.destination }

abbrev with_email : Alias → Alias
with_email a = record (with_destination a) { email = a.email }

abbrev with_wildcard : Alias → Alias
with_wildcard a = record (with_email a) { wildcard = a.wildcard }

read_fields :
    (a : Alias) → IsWritable a → decode_members set_member (members (fields a)) empty ≡ some a
unfolding set_member
read_fields a w =
    read_string set_member "comment" _ (λ x. record empty { comment = x }) a.comment (λ s. refl)
    ∙ read_strings set_member "destination" _ (λ x. record (with_comment a) { destination = x })
        a.destination w.destination_not_nil (λ l. rw (decode_strings-items l))
    ∙ read_value set_member "email" _ (str a.email) (with_destination a) (with_email a) refl
    ∙ read_bool set_member "wildcard" _ (λ x. record (with_email a) { wildcard = x }) a.wildcard
        (λ b. refl)
    ∙ read_end set_member (with_wildcard a)

-- An alias that is marshalled unmarshals to itself, if it has no pointer to a nil slice.
pub unmarshal-marshal_alias : (a : Alias) → IsWritable a → unmarshal (marshal a) ≡ some (some a)
unfolding marshal unmarshal
unmarshal-marshal_alias a w =
    decode_object_members set_member (members (fields a)) empty a (read_fields a w)
