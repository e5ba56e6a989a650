-- ===== src/Start/Main.antt =====
-- `main` of cmd/main.go: the flags, the options of the manager, and the calls of controller-runtime in
-- their order, each of which ends the program with status 1 if it fails. `SetupWithManager` of the three
-- reconcilers is the call that registers them.
use mailu_operator.Common.{
  ℕ, String, Bool, false, not, List, [], ◌∷◌, Option, none, some, if◌then◌else◌,
}
use mailu_operator.Common.Run.{Run, pure}
use mailu_operator.Common.Result.{Result, ok, err}
use mailu_operator.Http.{Net}
use mailu_operator.Controller.{Reconciler}
use mailu_operator.Start.{Settings, default_settings, configure, new_reconciler}

pub record Flags : Type 0 where
  pub metrics_addr : String
  pub enable_leader_election : Bool
  pub probe_addr : String
  pub secure_metrics : Bool
  pub enable_http2 : Bool
  pub settings : Settings

abbrev pub default_flags : Flags
default_flags = record {
  metrics_addr = ":8080";
  enable_leader_election = false;
  probe_addr = ":8081";
  secure_metrics = false;
  enable_http2 = false;
  settings = default_settings;
}

-- `tls.Config`, as far as the program writes it.
pub record TlsConfig : Type 0 where
  pub next_protos : List String

unfoldable pub disable_http2 : TlsConfig → TlsConfig
disable_http2 c = record c { next_protos = "http/1.1" ∷ [] }

unfoldable pub tls_opts : Bool → List (TlsConfig → TlsConfig)
tls_opts enable_http2 = if not enable_http2 then disable_http2 ∷ [] else []

-- `webhook.Options`
pub record WebhookOptions : Type 0 where
  pub tls_opts : List (TlsConfig → TlsConfig)

-- `metricsserver.Options`
pub record MetricsOptions : Type 0 where
  pub bind_address : String
  pub secure_serving : Bool
  pub tls_opts : List (TlsConfig → TlsConfig)

-- `ctrl.Options`
pub record ManagerOptions : Type 0 where
  pub metrics : MetricsOptions
  pub webhook_server : WebhookOptions
  pub health_probe_bind_address : String
  pub leader_election : Bool
  pub leader_election_id : String
  pub default_namespaces : List String
  pub disable_cache_for : List String

unfoldable pub manager_options : Flags → ManagerOptions
manager_options flags = record {
  metrics = record {
    bind_address = flags.metrics_addr;
    secure_serving = flags.secure_metrics;
    tls_opts = tls_opts flags.enable_http2;
  };
  webhook_server = record { tls_opts = tls_opts flags.enable_http2 };
  health_probe_bind_address = flags.probe_addr;
  leader_election = flags.enable_leader_election;
  leader_election_id = "539a0313.mailu.io";
  default_namespaces = "mail" ∷ [];
  disable_cache_for = "Secret" ∷ [];
}

pub data Kind : Type 0 where
  domain : Kind
  user : Kind
  alias : Kind

-- The calls of controller-runtime over the outside world `W`. An error is its text.
pub record Runtime (net : Net) (Config Manager : Type 0) : Type 0 where
  -- `ctrl.GetConfigOrDie()`: without a configuration it ends the program with status 1
  pub get_config : Run net.World (Option Config)
  pub new_manager : Config → ManagerOptions → Run net.World (Result Manager)
  -- `ctrl.NewControllerManagedBy(mgr).For(...).Complete(...)`
  pub complete : Kind → Reconciler net → Manager → Run net.World (Option String)
  pub add_healthz_check : String → Manager → Run net.World (Option String)
  pub add_readyz_check : String → Manager → Run net.World (Option String)
  pub start : Manager → Run net.World (Option String)

-- `if err := call; err != nil { os.Exit(1) }`, and what follows.
unfoldable pub or_exit : {W : Type 0} → Run W (Option String) → Run W ℕ → Run W ℕ
or_exit call rest w = let (e, v) = call w in elim e [ some message ↦ (1, v) | none ↦ rest v ]

module _ (net : Net) {Config Manager : Type 0} (runtime : Runtime net Config Manager) where
  abbrev pub domain_setup_with_manager : Reconciler net → Manager → Run net.World (Option String)
  domain_setup_with_manager = runtime.complete domain

  abbrev pub user_setup_with_manager : Reconciler net → Manager → Run net.World (Option String)
  user_setup_with_manager = runtime.complete user

  abbrev pub alias_setup_with_manager : Reconciler net → Manager → Run net.World (Option String)
  alias_setup_with_manager = runtime.complete alias

  -- What follows the making of the manager.
  unfoldable pub run_manager : Settings → Manager → Run net.World ℕ
  unfolding or_exit
  run_manager c mgr = or_exit (domain_setup_with_manager (new_reconciler net c) mgr) (
      or_exit (user_setup_with_manager (new_reconciler net c) mgr) (
        or_exit (alias_setup_with_manager (new_reconciler net c) mgr) (
          or_exit (runtime.add_healthz_check "healthz" mgr) (
            or_exit (runtime.add_readyz_check "readyz" mgr)
              (or_exit (runtime.start mgr) (pure 0))))))

  -- What follows the check of the settings.
  unfoldable pub make_manager : Flags → Settings → Run net.World ℕ
  unfolding run_manager
  make_manager flags c w =
      let (found, w1) = runtime.get_config w in
      elim found [
        | none ↦ (1, w1)
        | some config ↦
            let (made, w2) = runtime.new_manager config (manager_options flags) w1 in
            elim made [ err e ↦ (1, w2) | ok mgr ↦ run_manager c mgr w2 ]
      ]

  -- The exit status, with the flags that were parsed.
  unfoldable pub main : (String → Option String) → Flags → Run net.World ℕ
  unfolding make_manager
  main lookup_env flags w = elim (configure lookup_env flags.settings) [
    | none ↦ (1, w)
    | some c ↦ make_manager flags c w
  ]
