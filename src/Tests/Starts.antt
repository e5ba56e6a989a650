-- ===== src/Tests/Starts.antt =====
-- The start of the operator, and a first reconciliation.
use mailu_operator.Common.{
  String, ◌≡◌, ◌≢◌, ◌↔◌, ◌≤◌, refl, true, [], ◌∷◌, Option, none, some, str_eq, if◌then◌else◌,
}
use mailu_operator.Client.{Client, has_slash_suffix}
use mailu_operator.Resource.{Cluster}
use mailu_operator.Resource.Specs.{DomainSpec}
use mailu_operator.Controller.{Ctx, authorize}
use mailu_operator.Controller.Domain as DomainController
use mailu_operator.Start.{Settings, default_settings, configure, new_reconciler, started_client}
use mailu_operator.Common.Result.{ok}
use mailu_operator.Start.Main.{default_flags, Runtime, TlsConfig, main}
use mailu_operator.Start.Exit.{Succeeds, main_ends}
use mailu_operator.Start.Protocols.{next_protos, protocols_served}
use mailu_operator.Tests.World.{World, net, cluster}
use mailu_operator.Tests.Domains.{fresh}

abbrev environment : String → Option String
environment key = if str_eq key "MAILU_TOKEN" then some "token" else none

abbrev mail : Cluster World DomainSpec
mail = cluster

abbrev settings : Settings
settings = record { mailu_server = "http://mailu-front:80/api/v1/"; mailu_token = "token" }

abbrev started : Ctx net DomainSpec
unfolding new_reconciler
started = record fresh { reconciler = new_reconciler net settings }

-- The default server is taken, and the token of the environment.
started_client_example :
    (settings.mailu_server ≡ default_settings.mailu_server)
    × (settings.mailu_token ≡ "token")
    × (settings.mailu_server ≢ "")
    × (settings.mailu_token ≢ "")
    × ((k : Client net) × ((DomainController.reconcile net mail started).1.reconciler.api_client
          ≡ some k)
        × (has_slash_suffix k.server ≡ true)
        × (k.request_editors ≡ authorize "token" ∷ []))
unfolding configure new_reconciler
started_client_example =
    started_client net mail environment default_settings settings started refl refl

-- A library whose calls all succeed.
abbrev runtime : Runtime net (Unit {0}) (Unit {0})
runtime = record {
  get_config = λ w. (some tt, w);
  new_manager = λ config options w. (ok tt, w);
  complete = λ kind reconciler mgr w. (none, w);
  add_healthz_check = λ name mgr w. (none, w);
  add_readyz_check = λ name mgr w. (none, w);
  start = λ mgr w. (none, w);
}

-- It ends with status 0 when the token is given, and with 1 when it is not.
exit_status :
    ((main net runtime environment default_flags fresh.world).0 ≡ 0)
    × ((main net runtime (λ key. none) default_flags fresh.world).0 ≡ 1)
unfolding main configure
exit_status = (refl, refl)

main_ends_example :
    let r = main net runtime environment default_flags fresh.world in
    ((r.0 ≡ 0) ↔ Succeeds net runtime environment default_flags fresh.world r.1) × (r.0 ≤ 1)
main_ends_example = main_ends net runtime environment default_flags fresh.world

abbrev with_http2 : TlsConfig
with_http2 = record { next_protos = "h2" ∷ "http/1.1" ∷ [] }

protocols_served_example :
    next_protos default_flags with_http2 with_http2 ≡ ("http/1.1" ∷ [], "http/1.1" ∷ [])
protocols_served_example = protocols_served default_flags with_http2 with_http2
