-- ===== src/Start.antt =====
-- The start of the operator in cmd/main.go: the server and the token of the Mailu API, from the flags and
-- the environment, and the reconcilers that are made of them. Parsing the flags, reading the environment
-- and the manager are not in the repository; here the flags are their values, and the environment is a
-- function.
pub mod Main
pub mod Exit
pub mod Protocols
use mailu_operator.Common.{
  String, ◌≡◌, ◌≢◌, ap, sym, ◌∙◌, true, ◌||◌, [], ◌∷◌, Option, none, some, refl, arith, str_eq,
  eq_iff, Bool-cases, inl, inr, if◌then◌else◌,
}
use mailu_operator.Http.{Net}
use mailu_operator.Client.{Client, has_slash_suffix}
use mailu_operator.Resource.{Cluster}
use mailu_operator.Resource.Specs.{DomainSpec}
use mailu_operator.Controller.{Reconciler, Ctx, authorize}
use mailu_operator.Controller.Domain as DomainController
use mailu_operator.Controller.Sequel.Domain.{domain_client_kept}

-- The values of `-mailu-server` and `-mailu-token`.
pub record Settings : Type 0 where
  pub mailu_server : String
  pub mailu_token : String

abbrev pub default_settings : Settings
default_settings = record { mailu_server = "http://mailu-front:80/api/v1/"; mailu_token = "" }

-- `if val, ok := os.LookupEnv(key); ok { value = val }`
abbrev overwrite : Option String → String → String
overwrite none value = value
overwrite (some val) value = val

abbrev pub overwritten : (String → Option String) → Settings → Settings
overwritten lookup_env flags = record {
  mailu_server = overwrite (lookup_env "MAILU_URL") flags.mailu_server;
  mailu_token = overwrite (lookup_env "MAILU_TOKEN") flags.mailu_token;
}

-- `none` is the exit with status 1.
unfoldable pub configure : (String → Option String) → Settings → Option Settings
configure lookup_env flags =
    let c = overwritten lookup_env flags in
    if str_eq c.mailu_server "" || str_eq c.mailu_token "" then none else some c

-- The three reconcilers are made in the same way, with no API client.
unfoldable pub new_reconciler : (net : Net) → Settings → Reconciler net
new_reconciler net c = record {
  api_url = c.mailu_server;
  api_token = c.mailu_token;
  api_client = none;
}

overwrite_lem :
    (o : Option String) (flag : String) → overwrite o flag ≡ elim o [ none ↦ flag | some val ↦ val ]
overwrite_lem none flag = refl
overwrite_lem (some val) flag = refl

configured :
    (lookup_env : String → Option String) (flags c : Settings)
    → configure lookup_env flags ≡ some c
    → (c ≡ overwritten lookup_env flags) × (c.mailu_server ≢ "") × (c.mailu_token ≢ "")
unfolding configure
configured lookup_env flags c h =
    let o = overwritten lookup_env flags in
    elim (Bool-cases (str_eq o.mailu_server "")) [
      | inl empty ↦ absurd (ground arith)
      | inr given ↦ elim (Bool-cases (str_eq o.mailu_token "")) [
        | inl empty ↦ absurd (ground arith)
        | inr also ↦
            let same : c ≡ o = ground arith in
            (
              same,
              λ p. cc ((eq_iff o.mailu_server "").1 (sym (ap (λ x. x.mailu_server) same) ∙ p)),
              λ p. cc ((eq_iff o.mailu_token "").1 (sym (ap (λ x. x.mailu_token) same) ∙ p)),
            )
      ]
    ]

module _ (net : Net) (cluster : Cluster net.World DomainSpec) where
  -- If the operator starts, its server is the value of the variable MAILU_URL if that is set and the flag
  -- if not, its token is that of MAILU_TOKEN if that is set and the flag if not, and none is empty; and the
  -- first `Reconcile` of a domain by the reconciler made of them leaves a client whose server ends with a
  -- slash, and whose one editor authorizes with the token.
  pub started_client :
      (lookup_env : String → Option String) (flags c : Settings) (s : Ctx net DomainSpec)
      → configure lookup_env flags ≡ some c
      → s.reconciler ≡ new_reconciler net c
      → (c.mailu_server
          ≡ elim (lookup_env "MAILU_URL") [ none ↦ flags.mailu_server | some url ↦ url ])
        × (c.mailu_token
            ≡ elim (lookup_env "MAILU_TOKEN") [ none ↦ flags.mailu_token | some token ↦ token ])
        × (c.mailu_server ≢ "")
        × (c.mailu_token ≢ "")
        × ((k : Client net) × ((DomainController.reconcile net cluster s).1.reconciler.api_client
              ≡ some k)
            × (has_slash_suffix k.server ≡ true)
            × (k.request_editors ≡ authorize c.mailu_token ∷ []))
  unfolding new_reconciler
  started_client lookup_env flags c s h made =
      let (same, server, token) = configured lookup_env flags c h in
      let (k, kept, slash, editors) =
        domain_client_kept net cluster s (ap (λ r. r.api_client) made) in
      (
        ap (λ x. x.mailu_server) same ∙ overwrite_lem (lookup_env "MAILU_URL") flags.mailu_server,
        ap (λ x. x.mailu_token) same ∙ overwrite_lem (lookup_env "MAILU_TOKEN") flags.mailu_token,
        server,
        token,
        (k, kept, slash, rw (sym (ap (λ r. r.api_token) made)) editors),
      )
