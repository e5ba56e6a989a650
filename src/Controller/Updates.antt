-- ===== src/Controller/Updates.antt =====
-- When the three reconcilers of internal/controller send an update, and that they leave alone what is as it
-- is wanted.
use mailu_operator.Common.{
  ◌≡◌, refl, ap, ◌≢◌, Bool-cases, inl, inr, ◌⊎◌, [], true, false, none, some, arith,
}
use mailu_operator.Common.Result.{ok}
use mailu_operator.Json.{deep_equal, deep_equal_iff}
use mailu_operator.Http.{Net}
use mailu_operator.Client.{Client}
use mailu_operator.Api.Dates.{Dates}
use mailu_operator.Api.User.{User}
use mailu_operator.Api.User.Documents.{Alike, marshal_iff}
use mailu_operator.Client.Calls
use mailu_operator.Api.Domain.{Domain}
use mailu_operator.Api.Alias.{Alias}
use mailu_operator.Controller.User.Password.{Secrets}
use mailu_operator.Resource.{Cluster, finalizer_name}
use mailu_operator.Resource.Specs.{DomainSpec, AliasSpec, UserSpec}
use mailu_operator.Controller.{Ctx, finished}
use mailu_operator.Controller.Flow.Finalizers.{patched}
use mailu_operator.Controller.Flow.UpToDate.{up_to_date}
use mailu_operator.Controller.User.FromSpec.{user_from_spec}
use mailu_operator.Api.Domain
use mailu_operator.Api.Alias
use mailu_operator.Api.User
use mailu_operator.Controller.Domain as DomainController
use mailu_operator.Controller.Flow.Kinds.Domain.{
  domain_kind, domain_kind-IsTame, domain_reconcile_refines,
}
use mailu_operator.Controller.Alias as AliasController
use mailu_operator.Controller.Flow.Kinds.Alias.{
  alias_kind, alias_kind-IsTame, alias_reconcile_refines,
}
use mailu_operator.Controller.User as UserController
use mailu_operator.Controller.Flow.Kinds.User.{user_kind, user_kind-IsTame, user_reconcile_refines}

module _ (net : Net) (cluster : Cluster net.World DomainSpec) where
  -- `update` of a domain sends a request exactly when the domain that was found differs from the one that the
  -- spec asks for: if they are equal the world stays as it is, and if not it is the world after
  -- `updateDomain` of the wanted domain.
  pub domain_update_sent :
      (api : Client net) (found : Domain) (s : Ctx net DomainSpec)
      → let wanted = DomainController.new_domain s.object.spec in
        let after = (DomainController.update net cluster api found s).1.world in
        ((wanted ≡ found) × (after ≡ s.world))
        ⊎ ((wanted ≢ found)
            × (after ≡ (DomainController.update_domain net cluster api wanted s).1.world))
  unfolding DomainController.update
  domain_update_sent api found s =
      let wanted = DomainController.new_domain s.object.spec in
      let e = deep_equal_iff (Domain.marshal wanted) (Domain.marshal found) in
      elim (Bool-cases (deep_equal (Domain.marshal wanted) (Domain.marshal found))) [
        | inl same ↦ inl (Domain.marshal-injective wanted found (e.0 same), ground (arith, same))
        | inr other ↦ inr (λ h. cc (e.1 (ap Domain.marshal h)), ground (arith, other))
      ]

  -- With a client at hand and a live domain that has the finalizer, a lookup that finds the wanted domain
  -- makes `Reconcile` finish: neither the metadata nor the spec changes, and after the lookup the world
  -- changes by the two patches alone.
  pub domain_up_to_date :
      (s : Ctx net DomainSpec) (api : Client net)
      → s.reconciler.api_client ≡ some api
      → s.object.meta.deletion_timestamp ≡ none
      → cluster.contains_finalizer s.object.meta.finalizers finalizer_name ≡ true
      → (DomainController.get_domain net cluster api s).0 ≡ record {
        found = some (DomainController.new_domain s.object.spec);
        retry = false;
        error = none;
      }
      → let (r, t) = DomainController.reconcile net cluster s in
        (r ≡ finished)
        × (t.object.spec ≡ s.object.spec)
        × (t.object.meta ≡ s.object.meta)
        × (t.world
            ≡ patched cluster s.object t.object
                (DomainController.get_domain net cluster api s).1.world)
  domain_up_to_date s api h live kept present =
      let wanted = DomainController.new_domain s.object.spec in
      let e = deep_equal_iff (Domain.marshal wanted) (Domain.marshal wanted) in
      rw domain_reconcile_refines (
        up_to_date net cluster (domain_kind net cluster) (domain_kind-IsTame net cluster) s api
          wanted h live kept present (ground (arith, e.1 refl)))

module _ (net : Net) (cluster : Cluster net.World AliasSpec) where
  -- `update` of an alias sends a request exactly when the alias that was found differs from the one that the
  -- spec asks for: if they are equal the world stays as it is, and if not it is the world after
  -- `updateAlias` of the wanted alias.
  pub alias_update_sent :
      (api : Client net) (found : Alias) (s : Ctx net AliasSpec)
      → let wanted = AliasController.new_alias s.object.spec in
        let after = (AliasController.update net cluster api found s).1.world in
        ((wanted ≡ found) × (after ≡ s.world))
        ⊎ ((wanted ≢ found)
            × (after ≡ (AliasController.update_alias net cluster api wanted s).1.world))
  unfolding AliasController.update
  alias_update_sent api found s =
      let wanted = AliasController.new_alias s.object.spec in
      let e = deep_equal_iff (Alias.marshal wanted) (Alias.marshal found) in
      elim (Bool-cases (deep_equal (Alias.marshal wanted) (Alias.marshal found))) [
        | inl same ↦ inl (Alias.marshal-injective wanted found (e.0 same), ground (arith, same))
        | inr other ↦ inr (λ h. cc (e.1 (ap Alias.marshal h)), ground (arith, other))
      ]

  -- With a client at hand and a live alias that has the finalizer, a lookup that finds the wanted alias makes
  -- `Reconcile` finish: neither the metadata nor the spec changes, and after the lookup the world changes
  -- by the two patches alone.
  pub alias_up_to_date :
      (s : Ctx net AliasSpec) (api : Client net)
      → s.reconciler.api_client ≡ some api
      → s.object.meta.deletion_timestamp ≡ none
      → cluster.contains_finalizer s.object.meta.finalizers finalizer_name ≡ true
      → (AliasController.get_alias net cluster api s).0 ≡ record {
        found = some (AliasController.new_alias s.object.spec);
        retry = false;
        error = none;
      }
      → let (r, t) = AliasController.reconcile net cluster s in
        (r ≡ finished)
        × (t.object.spec ≡ s.object.spec)
        × (t.object.meta ≡ s.object.meta)
        × (t.world
            ≡ patched cluster s.object t.object
                (AliasController.get_alias net cluster api s).1.world)
  alias_up_to_date s api h live kept present =
      let wanted = AliasController.new_alias s.object.spec in
      let e = deep_equal_iff (Alias.marshal wanted) (Alias.marshal wanted) in
      rw alias_reconcile_refines (
        up_to_date net cluster (alias_kind net cluster) (alias_kind-IsTame net cluster) s api wanted
          h live kept present (ground (arith, e.1 refl)))

module _ (net : Net) (dates : Dates) (secrets : Secrets net.World)
    (cluster : Cluster net.World UserSpec) where
  -- For a user whose spec converts to `u`, `update` sends a request exactly when `u`, without its raw
  -- password, and the user that was found, without its password and its used quota, differ in a field;
  -- dates are compared by their texts. If they do not differ the world stays as it is, and if they do it is
  -- the world after the one request that updates the user of that email to `u` without its raw password.
  pub user_update_sent :
      (api : Client net) (found u : User dates) (s : Ctx net UserSpec)
      → user_from_spec dates s.object.spec ≡ ok u
      → let wanted = record u { raw_password = none } in
        let same = Alike dates wanted (record found { password = none; quota_bytes_used = none }) in
        let after = (UserController.update net dates secrets cluster api found s).1.world in
        (same × (after ≡ s.world))
        ⊎ ((¬ same) × (after ≡ (Calls.update_user net dates api u.email wanted [] s.world).1))
  unfolding UserController.update UserController.update_user
  user_update_sent api found u s good =
      let wanted = UserController.wanted_user net dates secrets cluster u in
      let known = UserController.known_user net dates secrets cluster found in
      let e = deep_equal_iff (User.marshal dates wanted) (User.marshal dates known) in
      let (to, from) = marshal_iff dates wanted known in
      elim (Bool-cases (deep_equal (User.marshal dates wanted) (User.marshal dates known))) [
        | inl same ↦ inl (to (e.0 same), ground (arith, same))
        | inr other ↦ inr (λ alike. cc (e.1 (from alike)), ground (arith, other))
      ]

  -- With a client at hand and a live user that has the finalizer and whose spec converts, a lookup that
  -- finds a user whose document is the wanted one makes `Reconcile` finish: neither the metadata nor the spec
  -- changes, and after the lookup the world changes by the two patches alone.
  pub user_up_to_date :
      (s : Ctx net UserSpec) (api : Client net) (u found : User dates)
      → s.reconciler.api_client ≡ some api
      → s.object.meta.deletion_timestamp ≡ none
      → cluster.contains_finalizer s.object.meta.finalizers finalizer_name ≡ true
      → user_from_spec dates s.object.spec ≡ ok u
      → User.marshal dates (UserController.wanted_user net dates secrets cluster u)
        ≡ User.marshal dates (UserController.known_user net dates secrets cluster found)
      → (UserController.get_user net dates secrets cluster api s).0
        ≡ record { found = some found; retry = false; error = none }
      → let (r, t) = UserController.reconcile net dates secrets cluster s in
        (r ≡ finished)
        × (t.object.spec ≡ s.object.spec)
        × (t.object.meta ≡ s.object.meta)
        × (t.world
            ≡ patched cluster s.object t.object
                (UserController.get_user net dates secrets cluster api s).1.world)
  user_up_to_date s api u found h live kept good same present =
      let e =
        deep_equal_iff (User.marshal dates (UserController.wanted_user net dates secrets cluster u))
          (User.marshal dates (UserController.known_user net dates secrets cluster found)) in
      rw user_reconcile_refines (
        up_to_date net cluster (user_kind net dates secrets cluster)
          (user_kind-IsTame net dates secrets cluster) s api found h live kept present
          (ground (arith, e.1 same)))
