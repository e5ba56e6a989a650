-- ===== src/Controller/Convergence.antt =====
-- What Mailu stores as it was sent is left alone afterwards: the three reconcilers of internal/controller
-- against an API that answers a lookup with the document of an update.
use mailu_operator.Common.{String, ◌≡◌, ap, true, false, Option, none, some, arith, []}
use mailu_operator.Common.Int.{ℤ}
use mailu_operator.Common.Result.{ok}
use mailu_operator.Http.{document}
use mailu_operator.Client.Calls
use mailu_operator.Api.Domain
use mailu_operator.Api.Alias
use mailu_operator.Api.User
use mailu_operator.Api.Domain.RoundTrip as DomainWritten
use mailu_operator.Api.Alias.RoundTrip as AliasWritten
use mailu_operator.Api.User.RoundTrip.{IsWritable, unmarshal-marshal_user}
use mailu_operator.Api.Dates.{IsLawful}
use mailu_operator.Http.{Net}
use mailu_operator.Client.{Client}
use mailu_operator.Api.Dates.{Dates}
use mailu_operator.Api.User.{User}
use mailu_operator.Api.Domain.{Domain}
use mailu_operator.Api.Alias.{Alias}
use mailu_operator.Controller.User.Password.{Secrets}
use mailu_operator.Resource.{Cluster, finalizer_name}
use mailu_operator.Resource.Specs.{DomainSpec, AliasSpec, UserSpec}
use mailu_operator.Controller.{Ctx, finished}
use mailu_operator.Controller.Flow.Finalizers.{patched}
use mailu_operator.Controller.User.FromSpec.{user_from_spec, user_email}
use mailu_operator.Controller.Reply.{find_reply}
use mailu_operator.Controller.Replies.{answer}
use mailu_operator.Controller.Updates.{domain_up_to_date, alias_up_to_date, user_up_to_date}
use mailu_operator.Controller.Domain as DomainController
use mailu_operator.Controller.Alias as AliasController
use mailu_operator.Controller.User as UserController

module _ (net : Net) (cluster : Cluster net.World DomainSpec) where
  domain_lookup_of_echo :
      (s : Ctx net DomainSpec) (api : Client net) (v : Domain)
      → DomainWritten.IsWritable v
      → (Calls.find_domain net api s.object.spec.name [] s.world).0
        ≡ answer 200 (document (Domain.marshal v))
      → (DomainController.get_domain net cluster api s).0
        ≡ record { found = some v; retry = false; error = none }
  unfolding DomainController.get_domain find_reply
  domain_lookup_of_echo s api v w echoed =
      ground (arith, DomainWritten.unmarshal-marshal_domain v w)

  -- Mailu answers the lookup of a live domain that has the finalizer with the document that an update would
  -- send. If that document is writable and a client is at hand, `Reconcile` finishes, keeps the metadata and
  -- the spec, and after the lookup the world changes by the two patches alone.
  pub domain_echo_converges :
      (s : Ctx net DomainSpec) (api : Client net)
      → s.reconciler.api_client ≡ some api
      → s.object.meta.deletion_timestamp ≡ none
      → cluster.contains_finalizer s.object.meta.finalizers finalizer_name ≡ true
      → DomainWritten.IsWritable (DomainController.new_domain s.object.spec)
      → (Calls.find_domain net api s.object.spec.name [] s.world).0
        ≡ answer 200 (document (Domain.marshal (DomainController.new_domain s.object.spec)))
      → let (r, t) = DomainController.reconcile net cluster s in
        (r ≡ finished)
        × (t.object.spec ≡ s.object.spec)
        × (t.object.meta ≡ s.object.meta)
        × (t.world
            ≡ patched cluster s.object t.object
                (Calls.find_domain net api s.object.spec.name [] s.world).1)
  unfolding DomainController.get_domain
  domain_echo_converges s api h live kept w echoed =
      domain_up_to_date net cluster s api h live kept
        (domain_lookup_of_echo s api (DomainController.new_domain s.object.spec) w echoed)

module _ (net : Net) (cluster : Cluster net.World AliasSpec) where
  alias_lookup_of_echo :
      (s : Ctx net AliasSpec) (api : Client net) (v : Alias)
      → AliasWritten.IsWritable v
      → (Calls.find_alias net api (AliasController.alias_email s.object.spec) [] s.world).0
        ≡ answer 200 (document (Alias.marshal v))
      → (AliasController.get_alias net cluster api s).0
        ≡ record { found = some v; retry = false; error = none }
  unfolding AliasController.get_alias find_reply
  alias_lookup_of_echo s api v w echoed = ground (arith, AliasWritten.unmarshal-marshal_alias v w)

  -- Mailu answers the lookup of a live alias that has the finalizer with the document that an update would
  -- send. If that document is writable and a client is at hand, `Reconcile` finishes, keeps the metadata and
  -- the spec, and after the lookup the world changes by the two patches alone.
  pub alias_echo_converges :
      (s : Ctx net AliasSpec) (api : Client net)
      → s.reconciler.api_client ≡ some api
      → s.object.meta.deletion_timestamp ≡ none
      → cluster.contains_finalizer s.object.meta.finalizers finalizer_name ≡ true
      → AliasWritten.IsWritable (AliasController.new_alias s.object.spec)
      → (Calls.find_alias net api (AliasController.alias_email s.object.spec) [] s.world).0
        ≡ answer 200 (document (Alias.marshal (AliasController.new_alias s.object.spec)))
      → let (r, t) = AliasController.reconcile net cluster s in
        (r ≡ finished)
        × (t.object.spec ≡ s.object.spec)
        × (t.object.meta ≡ s.object.meta)
        × (t.world
            ≡ patched cluster s.object t.object
                (Calls.find_alias net api (AliasController.alias_email s.object.spec) [] s.world).1)
  unfolding AliasController.get_alias
  alias_echo_converges s api h live kept w echoed =
      alias_up_to_date net cluster s api h live kept
        (alias_lookup_of_echo s api (AliasController.new_alias s.object.spec) w echoed)

module _ (net : Net) (dates : Dates) (secrets : Secrets net.World)
    (cluster : Cluster net.World UserSpec) where
  -- What is converted from a spec has no password hash and no used quota.
  user_known :
      (spec : UserSpec) (u : User dates) (hash : Option String) (used : Option ℤ)
      → user_from_spec dates spec ≡ ok u
      → UserController.wanted_user net dates secrets cluster u
        ≡ UserController.known_user net dates secrets cluster
            (record (UserController.wanted_user net dates secrets cluster u) {
              password = hash;
              quota_bytes_used = used;
            })
  unfolding user_from_spec
  user_known spec u hash used good = ground arith

  user_lookup_of_echo :
      (s : Ctx net UserSpec) (api : Client net) (v : User dates)
      → IsLawful dates
      → IsWritable dates v
      → (Calls.find_user net api (user_email s.object.spec) [] s.world).0
        ≡ answer 200 (document (User.marshal dates v))
      → (UserController.get_user net dates secrets cluster api s).0
        ≡ record { found = some v; retry = false; error = none }
  unfolding UserController.get_user find_reply
  user_lookup_of_echo s api v lawful w echoed =
      ground (arith, unmarshal-marshal_user dates lawful v w)

  -- Mailu answers the lookup of a live user that has the finalizer and whose spec converts with the document
  -- of the user that an update would send, with any password hash and used quota added. If that document is
  -- writable, dates are read as they were written, and a client is at hand, `Reconcile` finishes, keeps the
  -- metadata and the spec, and after the lookup the world changes by the two patches alone.
  pub user_echo_converges :
      (s : Ctx net UserSpec) (api : Client net) (u : User dates) (hash : Option String)
      (used : Option ℤ)
      → IsLawful dates
      → s.reconciler.api_client ≡ some api
      → s.object.meta.deletion_timestamp ≡ none
      → cluster.contains_finalizer s.object.meta.finalizers finalizer_name ≡ true
      → user_from_spec dates s.object.spec ≡ ok u
      → IsWritable dates (record (UserController.wanted_user net dates secrets cluster u) {
        password = hash;
        quota_bytes_used = used;
      })
      → (Calls.find_user net api (user_email s.object.spec) [] s.world).0
        ≡ answer 200 (
            document (
              User.marshal dates (record (UserController.wanted_user net dates secrets cluster u) {
                password = hash;
                quota_bytes_used = used;
              })))
      → let (r, t) = UserController.reconcile net dates secrets cluster s in
        (r ≡ finished)
        × (t.object.spec ≡ s.object.spec)
        × (t.object.meta ≡ s.object.meta)
        × (t.world
            ≡ patched cluster s.object t.object
                (Calls.find_user net api (user_email s.object.spec) [] s.world).1)
  unfolding UserController.get_user
  user_echo_converges s api u hash used lawful h live kept good w echoed =
      let v : User dates = record (UserController.wanted_user net dates secrets cluster u) {
        password = hash;
        quota_bytes_used = used;
      } in
      user_up_to_date net dates secrets cluster s api u v h live kept good
        (ap (λ x. User.marshal dates x) (user_known s.object.spec u hash used good))
        (user_lookup_of_echo s api v lawful w echoed)
