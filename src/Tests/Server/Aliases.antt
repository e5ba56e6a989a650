-- ===== src/Tests/Server/Aliases.antt =====
-- The small server for aliases, and reconciliations against it.
use mailu_operator.Common.{
  ℕ, String, ◌++◌, ◌≡◌, ◌≢◌, refl, none, some, [], ◌∷◌, Option, List, repeat, eq_iff,
}
use mailu_operator.Http.{Net}
use mailu_operator.Client.{Client}
use mailu_operator.Client.Calls
use mailu_operator.Client.Endpoints.{operation_path_alias, json_header}
use mailu_operator.Api.Alias
use mailu_operator.Api.Alias.{Alias}
use mailu_operator.Api.Alias.RoundTrip.{IsWritable, unmarshal-marshal_alias}
use mailu_operator.Controller.{authorize}
use mailu_operator.Controller.Mailu.{Kept}
use mailu_operator.Controller.Mailu.Alias.{Covers, IsAliasServer}
use mailu_operator.Resource.{Cluster, finalizer_name}
use mailu_operator.Resource.Specs.{AliasSpec}
use mailu_operator.Controller.{Ctx, finished}
use mailu_operator.Controller.Alias as AliasController
use mailu_operator.Controller.Mailu.Alias.Settling.{
  alias_settles_in_one, alias_deletion_completes, alias_others_kept,
}
use mailu_operator.Tests.World.{cluster_of, cluster_of-IsLawful}
use mailu_operator.Tests.Aliases.{resource, spec}
use mailu_operator.Tests.Server
use mailu_operator.Tests.Server.{Table, set, server-IsMailu}

abbrev net : Net
net = Server.net Alias.marshal Alias.unmarshal (λ a. a.email) "/alias/"

abbrev api : Client net
api = record {
  server = "http://mailu/api/v1/";
  client = some tt;
  request_editors = authorize "token" ∷ [];
}

abbrev stored : Table → String → Option Alias
stored = Server.stored Alias.marshal Alias.unmarshal (λ a. a.email) "/alias/"

Kept-refl {ℓ} : {A : Type ℓ} (x : Option A) → Kept x x
Kept-refl none = tt
Kept-refl (some x) = refl

Covers-all : (a : Alias) → Covers a a
Covers-all a = record {
  same_email = refl;
  kept_comment = Kept-refl a.comment;
  kept_destination = Kept-refl a.destination;
  kept_wildcard = Kept-refl a.wildcard;
}

abbrev header : List (String × String)
header = ("Authorization", "Bearer token") ∷ []

IsAliasServer-IsMailu : IsAliasServer net api stored
unfolding Calls.find_alias Calls.create_alias Calls.update_alias Calls.delete_alias
IsAliasServer-IsMailu =
    server-IsMailu Alias.marshal Alias.unmarshal (λ a. a.email) "/alias/" IsWritable Covers
      unmarshal-marshal_alias Alias.marshal-injective Covers-all
      (λ n. Calls.find_alias net api n []) (λ d. Calls.create_alias net api d [])
      (λ n d. Calls.update_alias net api n d []) (λ n. Calls.delete_alias net api n [])
      (λ n. (header, λ w. rw (operation_path_alias n) refl))
      (λ d. ("http://mailu/api/v1/./alias", (json_header ++ header, λ w. refl)))
      (λ n d. (json_header ++ header, λ w. rw (operation_path_alias n) refl))
      (λ n. (header, λ w. rw (operation_path_alias n) refl))

abbrev mail : Cluster Table AliasSpec
mail = cluster_of (λ w. w)

-- A server with one other alias, and an alias in the cluster.
abbrev other : Alias
other = record Alias.empty { email = "info@example.com"; comment = some "kept" }

abbrev tables : Table
tables = set (λ n. none) "info@example.com" (some (Alias.marshal other))

abbrev start : Option ℕ → Ctx net AliasSpec
start deleted = record {
  world = tables;
  reconciler = record {
    api_url = "http://mailu/api/v1/";
    api_token = "token";
    api_client = some api;
  };
  object = resource deleted (finalizer_name ∷ []) spec;
}

alias_settles_in_one_example :
    let t = repeat (λ u. (AliasController.reconcile net mail u).1) 1 (start none) in
    (t.object.spec ≡ spec)
    × (stored t.world "postmaster@example.com" ≡ some (AliasController.new_alias spec))
    × ((AliasController.reconcile net mail t).0 ≡ finished)
alias_settles_in_one_example =
    alias_settles_in_one net mail api stored IsAliasServer-IsMailu (λ o original w n. refl)
      (cluster_of-IsLawful (λ w. w)) 0 (start none) refl refl (record { destination_not_nil = tt })

alias_deletion_completes_example :
    let t = (AliasController.reconcile net mail (start (some 1))).1 in
    (stored t.world "postmaster@example.com" ≡ none) × (t.object.meta.finalizers ≡ [])
alias_deletion_completes_example =
    alias_deletion_completes net mail api stored IsAliasServer-IsMailu (λ o original w n. refl)
      (start (some 1)) 1 refl refl

other_name : ◌≢◌ {A = String} "info@example.com" "postmaster@example.com"
other_name h = cc ((eq_iff "info@example.com" "postmaster@example.com").1 h)

alias_others_kept_example :
    stored (AliasController.reconcile net mail (start none)).1.world "info@example.com"
    ≡ stored tables "info@example.com"
alias_others_kept_example =
    alias_others_kept net mail api stored IsAliasServer-IsMailu (λ o original w n. refl)
      (start none) "info@example.com" refl other_name
