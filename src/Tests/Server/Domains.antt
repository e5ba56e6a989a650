-- ===== src/Tests/Server/Domains.antt =====
-- The small server for domains, and reconciliations against it.
use mailu_operator.Common.{
  ℕ, String, ◌++◌, ◌≡◌, ◌≢◌, refl, none, some, [], ◌∷◌, Option, List, repeat, eq_iff,
}
use mailu_operator.Http.{Net}
use mailu_operator.Client.{Client}
use mailu_operator.Client.Calls
use mailu_operator.Client.Endpoints.{operation_path_domain, json_header}
use mailu_operator.Api.Domain
use mailu_operator.Api.Domain.{Domain}
use mailu_operator.Api.Domain.RoundTrip.{IsWritable, unmarshal-marshal_domain}
use mailu_operator.Controller.{authorize}
use mailu_operator.Controller.Mailu.{Kept}
use mailu_operator.Controller.Mailu.Domain.{Covers, IsDomainServer}
use mailu_operator.Resource.{Cluster, finalizer_name}
use mailu_operator.Resource.Specs.{DomainSpec}
use mailu_operator.Controller.{Ctx, finished}
use mailu_operator.Controller.Domain as DomainController
use mailu_operator.Controller.Mailu.Domain.Settling.{
  domain_settles_in_two, domain_deletion_completes, domain_others_kept,
}
use mailu_operator.Tests.World.{cluster_of, cluster_of-IsLawful}
use mailu_operator.Tests.Domains.{resource, spec}
use mailu_operator.Tests.Server
use mailu_operator.Tests.Server.{Table, set, server-IsMailu}

abbrev net : Net
net = Server.net Domain.marshal Domain.unmarshal (λ d. d.name) "/domain/"

abbrev api : Client net
api = record {
  server = "http://mailu/api/v1/";
  client = some tt;
  request_editors = authorize "token" ∷ [];
}

abbrev stored : Table → String → Option Domain
stored = Server.stored Domain.marshal Domain.unmarshal (λ d. d.name) "/domain/"

Kept-refl {ℓ} : {A : Type ℓ} (x : Option A) → Kept x x
Kept-refl none = tt
Kept-refl (some x) = refl

Covers-all : (d : Domain) → Covers d d
Covers-all d = record {
  same_name = refl;
  kept_alternatives = Kept-refl d.alternatives;
  kept_comment = Kept-refl d.comment;
  kept_max_aliases = Kept-refl d.max_aliases;
  kept_max_quota_bytes = Kept-refl d.max_quota_bytes;
  kept_max_users = Kept-refl d.max_users;
  kept_signup_enabled = Kept-refl d.signup_enabled;
}

abbrev header : List (String × String)
header = ("Authorization", "Bearer token") ∷ []

IsDomainServer-IsMailu : IsDomainServer net api stored
unfolding Calls.find_domain Calls.create_domain Calls.update_domain Calls.delete_domain
IsDomainServer-IsMailu =
    server-IsMailu Domain.marshal Domain.unmarshal (λ d. d.name) "/domain/" IsWritable Covers
      unmarshal-marshal_domain Domain.marshal-injective Covers-all
      (λ n. Calls.find_domain net api n []) (λ d. Calls.create_domain net api d [])
      (λ n d. Calls.update_domain net api n d []) (λ n. Calls.delete_domain net api n [])
      (λ n. (header, λ w. rw (operation_path_domain n) refl))
      (λ d. ("http://mailu/api/v1/./domain", (json_header ++ header, λ w. refl)))
      (λ n d. (json_header ++ header, λ w. rw (operation_path_domain n) refl))
      (λ n. (header, λ w. rw (operation_path_domain n) refl))

abbrev mail : Cluster Table DomainSpec
mail = cluster_of (λ w. w)

-- A server with one other domain, and a domain in the cluster.
abbrev other : Domain
other = record Domain.empty { name = "example.net"; comment = some "kept" }

abbrev tables : Table
tables = set (λ n. none) "example.net" (some (Domain.marshal other))

abbrev start : Option ℕ → Ctx net DomainSpec
start deleted = record {
  world = tables;
  reconciler = record {
    api_url = "http://mailu/api/v1/";
    api_token = "token";
    api_client = some api;
  };
  object = resource deleted (finalizer_name ∷ []) spec;
}

domain_settles_in_two_example :
    let t = repeat (λ u. (DomainController.reconcile net mail u).1) 2 (start none) in
    (t.object.spec ≡ spec)
    × (stored t.world "example.com" ≡ some (DomainController.new_domain spec))
    × ((DomainController.reconcile net mail t).0 ≡ finished)
domain_settles_in_two_example =
    domain_settles_in_two net mail api stored IsDomainServer-IsMailu (λ o original w n. refl)
      (cluster_of-IsLawful (λ w. w)) 0 (start none) refl refl
      (record {
        alternatives_not_nil = tt;
        max_aliases_fits = refl;
        max_quota_bytes_fits = refl;
        max_users_fits = refl;
      })

domain_deletion_completes_example :
    let t = (DomainController.reconcile net mail (start (some 1))).1 in
    (stored t.world "example.com" ≡ none) × (t.object.meta.finalizers ≡ [])
domain_deletion_completes_example =
    domain_deletion_completes net mail api stored IsDomainServer-IsMailu (λ o original w n. refl)
      (start (some 1)) 1 refl refl

other_name : ◌≢◌ {A = String} "example.net" "example.com"
other_name h = cc ((eq_iff "example.net" "example.com").1 h)

domain_others_kept_example :
    stored (DomainController.reconcile net mail (start none)).1.world "example.net"
    ≡ stored tables "example.net"
domain_others_kept_example =
    domain_others_kept net mail api stored IsDomainServer-IsMailu (λ o original w n. refl)
      (start none) "example.net" refl other_name
