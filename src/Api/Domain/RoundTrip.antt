-- ===== src/Api/Domain/RoundTrip.antt =====
-- The documents of `mailu.Domain` are read back as they were written.
use mailu_operator.Common.{◌≡◌, refl, ◌∙◌, some}
use mailu_operator.Json.{str}
use mailu_operator.Json.Object.{members}
use mailu_operator.Json.Decode.{decode_members, decode_strings-items, decode_int-num}
use mailu_operator.Json.Fields.{
  Fits, NotNil, read_value, read_bool, read_string, read_int, read_strings, read_end,
  decode_object_members,
}
use mailu_operator.Api.Domain.{Domain, empty, fields, set_member, marshal, unmarshal}

-- The integers are ones that an `int` holds, and no pointer leads to a nil slice.
pub record IsWritable (d : Domain) : Type 0 where
  pub alternatives_not_nil : NotNil d.alternatives
  pub max_aliases_fits : Fits d.max_aliases
  pub max_quota_bytes_fits : Fits d.max_quota_bytes
  pub max_users_fits : Fits d.max_users

abbrev with_alternatives : Domain → Domain
with_alternatives d = record empty { alternatives = d.alternatives }

abbrev with_comment : Domain → Domain
with_comment d = record (with_alternatives d) { comment = d.comment }

abbrev with_max_aliases : Domain → Domain
with_max_aliases d = record (with_comment d) { max_aliases = d.max_aliases }

abbrev with_max_quota_bytes : Domain → Domain
with_max_quota_bytes d = record (with_max_aliases d) { max_quota_bytes = d.max_quota_bytes }

abbrev with_max_users : Domain → Domain
with_max_users d = record (with_max_quota_bytes d) { max_users = d.max_users }

abbrev with_name : Domain → Domain
with_name d = record (with_max_users d) { name = d.name }

abbrev with_signup_enabled : Domain → Domain
with_signup_enabled d = record (with_name d) { signup_enabled = d.signup_enabled }

read_fields :
    (d : Domain) → IsWritable d → decode_members set_member (members (fields d)) empty ≡ some d
unfolding set_member
read_fields d w =
    read_strings set_member "alternatives" _ (λ x. record empty { alternatives = x }) d.alternatives
      w.alternatives_not_nil (λ l. rw (decode_strings-items l))
    ∙ read_string set_member "comment" _ (λ x. record (with_alternatives d) { comment = x })
        d.comment (λ s. refl)
    ∙ read_int set_member "max_aliases" _ (λ x. record (with_comment d) { max_aliases = x })
        d.max_aliases w.max_aliases_fits (λ z fits. rw (decode_int-num z fits))
    ∙ read_int set_member "max_quota_bytes" _
        (λ x. record (with_max_aliases d) { max_quota_bytes = x }) d.max_quota_bytes
        w.max_quota_bytes_fits (λ z fits. rw (decode_int-num z fits))
    ∙ read_int set_member "max_users" _ (λ x. record (with_max_quota_bytes d) { max_users = x })
        d.max_users w.max_users_fits (λ z fits. rw (decode_int-num z fits))
    ∙ read_value set_member "name" _ (str d.name) (with_max_users d) (with_name d) refl
    ∙ read_bool set_member "signup_enabled" _ (λ x. record (with_name d) { signup_enabled = x })
        d.signup_enabled (λ b. refl)
    ∙ read_end set_member (with_signup_enabled d)

-- A domain that is marshalled unmarshals to itself, if its integers are ones that an `int` holds and it has
-- no pointer to a nil slice.
pub unmarshal-marshal_domain : (d : Domain) → IsWritable d → unmarshal (marshal d) ≡ some (some d)
unfolding marshal unmarshal
unmarshal-marshal_domain d w =
    decode_object_members set_member (members (fields d)) empty d (read_fields d w)
