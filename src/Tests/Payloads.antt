-- ===== src/Tests/Payloads.antt =====
-- The documents of pkg/mailu/client.go at concrete values.
use mailu_operator.Common.{◌≡◌, refl, none, some, [], ◌∷◌, true, false}
use mailu_operator.Common.Int.{pos, negsuc}
use mailu_operator.Json.{obj, end, member, str, num, arr, nil, cons, bool, null}
use mailu_operator.Api.Domain
use mailu_operator.Api.Domain.{Domain}
use mailu_operator.Api.Domain.RoundTrip.{unmarshal-marshal_domain}
use mailu_operator.Api.User
use mailu_operator.Api.User.{User}
use mailu_operator.Api.User.RoundTrip.{unmarshal-marshal_user}
use mailu_operator.Tests.World.{dates, dates-IsLawful}

abbrev example : Domain
example = record {
  alternatives = some (some ("example.org" ∷ []));
  comment = some "";
  max_aliases = some (negsuc 0);
  max_quota_bytes = none;
  max_users = some (pos 10);
  name = "example.com";
  signup_enabled = some false;
}

marshal_domain :
    Domain.marshal example
    ≡ obj (
        member "alternatives" (arr (cons (str "example.org") nil)) (
          member "comment" (str "") (
            member "max_aliases" (num (negsuc 0)) (
              member "max_users"
                (num (pos 10))
                (member "name" (str "example.com") (member "signup_enabled" (bool false) end))))))
unfolding Domain.marshal
marshal_domain = refl

-- The document `null` unmarshals to nil, and a member of another kind is an error.
unmarshal_domain :
    (Domain.unmarshal null ≡ some none)
    × (Domain.unmarshal (obj (member "Name" (str "a") (member "dkim" null end)))
        ≡ some (some (record Domain.empty { name = "a" })))
    × (Domain.unmarshal (obj (member "max_users" (str "a") end)) ≡ none)
unfolding Domain.unmarshal
unmarshal_domain = (refl, refl, refl)

unmarshal-marshal_domain_example : Domain.unmarshal (Domain.marshal example) ≡ some (some example)
unmarshal-marshal_domain_example = unmarshal-marshal_domain example (record {
  alternatives_not_nil = tt;
  max_aliases_fits = refl;
  max_quota_bytes_fits = tt;
  max_users_fits = refl;
})

abbrev admin : User dates
admin = record (User.empty dates) {
  email = "admin@example.com";
  enabled = some true;
  quota_bytes = some (pos 1000000000);
  reply_start_date = some "2024-06-01";
  forward_destination = some (some []);
}

unmarshal-marshal_user_example : User.unmarshal dates (User.marshal dates admin) ≡ some (some admin)
unmarshal-marshal_user_example = unmarshal-marshal_user dates dates-IsLawful admin (record {
  forward_destination_not_nil = tt;
  quota_bytes_fits = refl;
  quota_bytes_used_fits = tt;
  reply_end_date_was_read = tt;
  reply_start_date_was_read = ("2024-06-01", refl);
  spam_threshold_fits = tt;
})
