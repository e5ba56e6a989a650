-- ===== src/Controller/Finalizer.antt =====
-- The finalizer in the three reconcilers of internal/controller: `Reconcile` adds it to a resource before
-- anything is created, and removes it once a deletion is over.
use mailu_operator.Common.{ℕ, String, ◌≡◌, true, false, none, some, if◌then◌else◌}
use mailu_operator.Http.{Net}
use mailu_operator.Client.{Client}
use mailu_operator.Api.Dates.{Dates}
use mailu_operator.Controller.User.Password.{Secrets}
use mailu_operator.Resource.{Cluster, IsLawful, finalizer_name}
use mailu_operator.Resource.Specs.{DomainSpec, AliasSpec, UserSpec}
use mailu_operator.Controller.{Ctx, finished}
use mailu_operator.Controller.Flow.Finalizers.{
  released, patched, finalizer_live, finalizers_deleted, deletion_abandoned,
}
use mailu_operator.Controller.Domain as DomainController
use mailu_operator.Controller.Flow.Kinds.Domain.{
  domain_kind, domain_kind-IsTame, domain_reconcile_refines,
}
use mailu_operator.Controller.Alias as AliasController
use mailu_operator.Controller.Flow.Kinds.Alias.{
  alias_kind, alias_kind-IsTame, alias_reconcile_refines,
}
use mailu_operator.Controller.User as UserController
use mailu_operator.Controller.Flow.Kinds.User.{user_kind, user_kind-IsTame, user_reconcile_refines}

module _ (net : Net) (cluster : Cluster net.World DomainSpec) where
  -- A domain that is not being deleted carries the finalizer after `Reconcile`, whatever the Mailu API
  -- answers, if the cluster is lawful: `AddFinalizer` adds the finalizer, and `SetStatusCondition` sets the
  -- condition.
  pub domain_finalizer_live :
      IsLawful cluster
      → (s : Ctx net DomainSpec) → s.object.meta.deletion_timestamp ≡ none
      → cluster.contains_finalizer
          (DomainController.reconcile net cluster s).1.object.meta.finalizers
          finalizer_name
        ≡ true
  domain_finalizer_live lawful s live = rw domain_reconcile_refines (
      finalizer_live net cluster (domain_kind net cluster) (domain_kind-IsTame net cluster) lawful s
        live)

  -- With a client at hand and a domain that is being deleted, `Reconcile` removes the finalizer exactly when
  -- the lookup failed for good or found nothing, or when the deletion has neither an error nor a retry; in
  -- all other cases the finalizers stay as they were.
  pub domain_finalizer_deleted :
      (s : Ctx net DomainSpec) (api : Client net) (d : ℕ)
      → s.reconciler.api_client ≡ some api
      → s.object.meta.deletion_timestamp ≡ some d
      → let (l, t) = DomainController.get_domain net cluster api s in
        (DomainController.reconcile net cluster s).1.object.meta.finalizers ≡ (
          if released l (DomainController.delete_domain net cluster api t).0
          then cluster.remove_finalizer s.object.meta.finalizers finalizer_name
          else s.object.meta.finalizers)
  domain_finalizer_deleted s api d h deleted = rw domain_reconcile_refines (
      finalizers_deleted net cluster (domain_kind net cluster) (domain_kind-IsTame net cluster) s
        api d h deleted)

  -- With a client at hand and a domain that is being deleted, a lookup that fails with no retry ends the
  -- deletion: the result is empty, the finalizer is removed, and after the lookup the world changes by the
  -- two patches alone, so that no deletion is sent to the Mailu API.
  pub domain_deletion_abandoned :
      (s : Ctx net DomainSpec) (api : Client net) (d : ℕ) (e : String)
      → s.reconciler.api_client ≡ some api
      → s.object.meta.deletion_timestamp ≡ some d
      → (DomainController.get_domain net cluster api s).0
        ≡ record { found = none; retry = false; error = some e }
      → let (r, t) = DomainController.reconcile net cluster s in
        (r ≡ finished)
        × (t.object.meta.finalizers
            ≡ cluster.remove_finalizer s.object.meta.finalizers finalizer_name)
        × (t.world
            ≡ patched cluster s.object t.object
                (DomainController.get_domain net cluster api s).1.world)
  domain_deletion_abandoned s api d e h deleted failed = rw domain_reconcile_refines (
      deletion_abandoned net cluster (domain_kind net cluster) (domain_kind-IsTame net cluster) s
        api d e h deleted failed)

module _ (net : Net) (cluster : Cluster net.World AliasSpec) where
  -- An alias that is not being deleted carries the finalizer after `Reconcile`, whatever the Mailu API
  -- answers, if the cluster is lawful: `AddFinalizer` adds the finalizer, and `SetStatusCondition` sets the
  -- condition.
  pub alias_finalizer_live :
      IsLawful cluster
      → (s : Ctx net AliasSpec) → s.object.meta.deletion_timestamp ≡ none
      → cluster.contains_finalizer
          (AliasController.reconcile net cluster s).1.object.meta.finalizers
          finalizer_name
        ≡ true
  alias_finalizer_live lawful s live = rw alias_reconcile_refines (
      finalizer_live net cluster (alias_kind net cluster) (alias_kind-IsTame net cluster) lawful s
        live)

  -- With a client at hand and an alias that is being deleted, `Reconcile` removes the finalizer exactly when
  -- the lookup failed for good or found nothing, or when the deletion has neither an error nor a retry; in
  -- all other cases the finalizers stay as they were.
  pub alias_finalizer_deleted :
      (s : Ctx net AliasSpec) (api : Client net) (d : ℕ)
      → s.reconciler.api_client ≡ some api
      → s.object.meta.deletion_timestamp ≡ some d
      → let (l, t) = AliasController.get_alias net cluster api s in
        (AliasController.reconcile net cluster s).1.object.meta.finalizers ≡ (
          if released l (AliasController.delete_alias net cluster api t).0
          then cluster.remove_finalizer s.object.meta.finalizers finalizer_name
          else s.object.meta.finalizers)
  alias_finalizer_deleted s api d h deleted = rw alias_reconcile_refines (
      finalizers_deleted net cluster (alias_kind net cluster) (alias_kind-IsTame net cluster) s api
        d h deleted)

  -- With a client at hand and an alias that is being deleted, a lookup that fails with no retry ends the
  -- deletion: the result is empty, the finalizer is removed, and after the lookup the world changes by the
  -- two patches alone, so that no deletion is sent to the Mailu API.
  pub alias_deletion_abandoned :
      (s : Ctx net AliasSpec) (api : Client net) (d : ℕ) (e : String)
      → s.reconciler.api_client ≡ some api
      → s.object.meta.deletion_timestamp ≡ some d
      → (AliasController.get_alias net cluster api s).0
        ≡ record { found = none; retry = false; error = some e }
      → let (r, t) = AliasController.reconcile net cluster s in
        (r ≡ finished)
        × (t.object.meta.finalizers
            ≡ cluster.remove_finalizer s.object.meta.finalizers finalizer_name)
        × (t.world
            ≡ patched cluster s.object t.object
                (AliasController.get_alias net cluster api s).1.world)
  alias_deletion_abandoned s api d e h deleted failed = rw alias_reconcile_refines (
      deletion_abandoned net cluster (alias_kind net cluster) (alias_kind-IsTame net cluster) s api
        d e h deleted failed)

module _ (net : Net) (dates : Dates) (secrets : Secrets net.World)
    (cluster : Cluster net.World UserSpec) where
  -- A user that is not being deleted carries the finalizer after `Reconcile`, whatever the Mailu API
  -- answers, if the cluster is lawful: `AddFinalizer` adds the finalizer, and `SetStatusCondition` sets the
  -- condition.
  pub user_finalizer_live :
      IsLawful cluster
      → (s : Ctx net UserSpec) → s.object.meta.deletion_timestamp ≡ none
      → cluster.contains_finalizer
          (UserController.reconcile net dates secrets cluster s).1.object.meta.finalizers
          finalizer_name
        ≡ true
  user_finalizer_live lawful s live = rw user_reconcile_refines (
      finalizer_live net cluster (user_kind net dates secrets cluster)
        (user_kind-IsTame net dates secrets cluster) lawful s live)

  -- With a client at hand and a user that is being deleted, `Reconcile` removes the finalizer exactly when
  -- the lookup failed for good or found nothing, or when the deletion has neither an error nor a retry; in
  -- all other cases the finalizers stay as they were.
  pub user_finalizer_deleted :
      (s : Ctx net UserSpec) (api : Client net) (d : ℕ)
      → s.reconciler.api_client ≡ some api
      → s.object.meta.deletion_timestamp ≡ some d
      → let (l, t) = UserController.get_user net dates secrets cluster api s in
        (UserController.reconcile net dates secrets cluster s).1.object.meta.finalizers ≡ (
          if released l (UserController.delete_user net dates secrets cluster api t).0
          then cluster.remove_finalizer s.object.meta.finalizers finalizer_name
          else s.object.meta.finalizers)
  user_finalizer_deleted s api d h deleted = rw user_reconcile_refines (
      finalizers_deleted net cluster (user_kind net dates secrets cluster)
        (user_kind-IsTame net dates secrets cluster) s api d h deleted)

  -- With a client at hand and a user that is being deleted, a lookup that fails with no retry ends the
  -- deletion: the result is empty, the finalizer is removed, and after the lookup the world changes by the
  -- two patches alone, so that no deletion is sent to the Mailu API.
  pub user_deletion_abandoned :
      (s : Ctx net UserSpec) (api : Client net) (d : ℕ) (e : String)
      → s.reconciler.api_client ≡ some api
      → s.object.meta.deletion_timestamp ≡ some d
      → (UserController.get_user net dates secrets cluster api s).0
        ≡ record { found = none; retry = false; error = some e }
      → let (r, t) = UserController.reconcile net dates secrets cluster s in
        (r ≡ finished)
        × (t.object.meta.finalizers
            ≡ cluster.remove_finalizer s.object.meta.finalizers finalizer_name)
        × (t.world
            ≡ patched cluster s.object t.object
                (UserController.get_user net dates secrets cluster api s).1.world)
  user_deletion_abandoned s api d e h deleted failed = rw user_reconcile_refines (
      deletion_abandoned net cluster (user_kind net dates secrets cluster)
        (user_kind-IsTame net dates secrets cluster) s api d e h deleted failed)
