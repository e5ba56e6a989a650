-- ===== src/Controller/Results.antt =====
-- The results of the three reconcilers of internal/controller.
use mailu_operator.Common.{
  ◌≡◌, refl, ap, ◌∙◌, Bool, true, false, Option, none, some, is_some, arith, if◌then◌else◌, inl,
  inr,
}
use mailu_operator.Common.Result.{ok, err, Result-cases}
use mailu_operator.Json.{deep_equal}
use mailu_operator.Http.{Net}
use mailu_operator.Client.{Client}
use mailu_operator.Api.Dates.{Dates}
use mailu_operator.Api.Domain
use mailu_operator.Api.Domain.{Domain}
use mailu_operator.Api.Alias
use mailu_operator.Api.Alias.{Alias}
use mailu_operator.Api.User
use mailu_operator.Api.User.{User}
use mailu_operator.Controller.User.FromSpec.{user_from_spec}
use mailu_operator.Controller.User.Password.{Secrets}
use mailu_operator.Resource.{Cluster}
use mailu_operator.Resource.Specs.{DomainSpec, AliasSpec, UserSpec}
use mailu_operator.Controller.{Ctx, Attempt}
use mailu_operator.Controller.Flow
use mailu_operator.Controller.Flow.Results.{nothing, result_of, attempt, reconcile_result}
use mailu_operator.Controller.Domain as DomainController
use mailu_operator.Controller.Alias as AliasController
use mailu_operator.Controller.User as UserController
use mailu_operator.Controller.Flow.Kinds.Domain.{
  domain_kind, domain_kind-IsTame, domain_reconcile_refines,
}
use mailu_operator.Controller.Flow.Kinds.Alias.{
  alias_kind, alias_kind-IsTame, alias_reconcile_refines,
}
use mailu_operator.Controller.Flow.Kinds.User.{user_kind, user_kind-IsTame, user_reconcile_refines}

module _ (net : Net) (cluster : Cluster net.World DomainSpec) where
  -- What `reconcile` calls after a lookup that made no error, by whether a domain is being deleted and what
  -- was found.
  abbrev pub domain_attempt : Client net → Bool → Option (Domain) → Ctx net DomainSpec → Attempt
  domain_attempt api true none t = nothing
  domain_attempt api true (some found) t = (DomainController.delete_domain net cluster api t).0
  domain_attempt api false none t = (DomainController.create_domain net cluster api t).0
  domain_attempt api false (some found) t =
      let wanted = DomainController.new_domain t.object.spec in
      if deep_equal (Domain.marshal wanted) (Domain.marshal found)
      then nothing
      else (DomainController.update_domain net cluster api wanted t).0

  domain_attempt_lem :
      (api : Client net) (deleting : Bool) (found : Option (Domain)) (t : Ctx net DomainSpec)
      → attempt net cluster (domain_kind net cluster) api deleting found t
        ≡ domain_attempt api deleting found t
  domain_attempt_lem api true none t = refl
  domain_attempt_lem api true (some found) t = refl
  domain_attempt_lem api false none t = refl
  domain_attempt_lem api false (some found) t = ground arith

  -- With a client at hand, the result of `Reconcile` of a domain is known from the lookup and what follows
  -- it: the deletion or nothing if it is being deleted, the creation if nothing was found, else the update
  -- if the domain that was found differs from the wanted one. It waits five seconds, with no error, exactly
  -- if the lookup failed with a retry, or made no error and what follows asks for a retry. Else it does not
  -- wait, and its error is that of what follows if the lookup made none.
  pub domain_result :
      (s : Ctx net DomainSpec) (api : Client net)
      → s.reconciler.api_client ≡ some api
      → let (l, t) =
          DomainController.get_domain net cluster api
            (DomainController.guard_finalizer net cluster s) in
        (DomainController.reconcile net cluster s).0
        ≡ result_of l (domain_attempt api (is_some s.object.meta.deletion_timestamp) l.found t)
  unfolding DomainController.guard_finalizer Flow.guard_finalizer
  domain_result s api client =
      let (l, t) =
        DomainController.get_domain net cluster api
          (DomainController.guard_finalizer net cluster s) in
      ap (λ p. p.0) (domain_reconcile_refines net cluster s)
      ∙ reconcile_result net cluster (domain_kind net cluster) (domain_kind-IsTame net cluster) s
          api client
      ∙ ap (result_of l)
          (domain_attempt_lem api (is_some s.object.meta.deletion_timestamp) l.found t)

module _ (net : Net) (cluster : Cluster net.World AliasSpec) where
  -- What `reconcile` calls after a lookup that made no error, by whether an alias is being deleted and what
  -- was found.
  abbrev pub alias_attempt : Client net → Bool → Option (Alias) → Ctx net AliasSpec → Attempt
  alias_attempt api true none t = nothing
  alias_attempt api true (some found) t = (AliasController.delete_alias net cluster api t).0
  alias_attempt api false none t = (AliasController.create_alias net cluster api t).0
  alias_attempt api false (some found) t =
      let wanted = AliasController.new_alias t.object.spec in
      if deep_equal (Alias.marshal wanted) (Alias.marshal found)
      then nothing
      else (AliasController.update_alias net cluster api wanted t).0

  alias_attempt_lem :
      (api : Client net) (deleting : Bool) (found : Option (Alias)) (t : Ctx net AliasSpec)
      → attempt net cluster (alias_kind net cluster) api deleting found t
        ≡ alias_attempt api deleting found t
  alias_attempt_lem api true none t = refl
  alias_attempt_lem api true (some found) t = refl
  alias_attempt_lem api false none t = refl
  alias_attempt_lem api false (some found) t = ground arith

  -- With a client at hand, the result of `Reconcile` of an alias is known from the lookup and what follows
  -- it: the deletion or nothing if it is being deleted, the creation if nothing was found, else the update
  -- if the alias that was found differs from the wanted one. It waits five seconds, with no error, exactly
  -- if the lookup failed with a retry, or made no error and what follows asks for a retry. Else it does not
  -- wait, and its error is that of what follows if the lookup made none.
  pub alias_result :
      (s : Ctx net AliasSpec) (api : Client net)
      → s.reconciler.api_client ≡ some api
      → let (l, t) =
          AliasController.get_alias net cluster api
            (AliasController.guard_finalizer net cluster s) in
        (AliasController.reconcile net cluster s).0
        ≡ result_of l (alias_attempt api (is_some s.object.meta.deletion_timestamp) l.found t)
  unfolding AliasController.guard_finalizer Flow.guard_finalizer
  alias_result s api client =
      let (l, t) =
        AliasController.get_alias net cluster api (AliasController.guard_finalizer net cluster s) in
      ap (λ p. p.0) (alias_reconcile_refines net cluster s)
      ∙ reconcile_result net cluster (alias_kind net cluster) (alias_kind-IsTame net cluster) s api
          client
      ∙ ap (result_of l)
          (alias_attempt_lem api (is_some s.object.meta.deletion_timestamp) l.found t)

module _ (net : Net) (dates : Dates) (secrets : Secrets net.World)
    (cluster : Cluster net.World UserSpec) where
  -- What `reconcile` calls after a lookup that made no error, by whether a user is being deleted and what
  -- was found.
  abbrev pub user_attempt : Client net → Bool → Option (User dates) → Ctx net UserSpec → Attempt
  user_attempt api true none t = nothing
  user_attempt api true (some found) t =
      (UserController.delete_user net dates secrets cluster api t).0
  user_attempt api false none t = (UserController.create_user net dates secrets cluster api t).0
  user_attempt api false (some found) t = elim (user_from_spec dates t.object.spec) [
    | err e ↦ record { retry = false; error = some e }
    | ok u ↦
        let wanted = record u { raw_password = none } in
        let known = record found { password = none; quota_bytes_used = none } in
        if deep_equal (User.marshal dates wanted) (User.marshal dates known)
        then nothing
        else (UserController.update_user net dates secrets cluster api wanted t).0
  ]

  user_attempt_lem :
      (api : Client net) (deleting : Bool) (found : Option (User dates)) (t : Ctx net UserSpec)
      → attempt net cluster (user_kind net dates secrets cluster) api deleting found t
        ≡ user_attempt api deleting found t
  user_attempt_lem api true none t = refl
  user_attempt_lem api true (some found) t = refl
  user_attempt_lem api false none t = refl
  user_attempt_lem api false (some found) t =
      elim (Result-cases (user_from_spec dates t.object.spec)) [
        | inl (e, bad) ↦ ground arith
        | inr (u, good) ↦ ground arith
      ]

  -- With a client at hand, the result of `Reconcile` of a user is known from the lookup and what follows
  -- it: the deletion or nothing if it is being deleted, the creation if nothing was found, else the
  -- conversion of the spec, and the update if the user that was found differs from it. It waits five
  -- seconds, with no error, exactly if the lookup failed with a retry, or made no error and what follows
  -- asks for a retry. Else it does not wait, and its error is that of what follows if the lookup made none.
  pub user_result :
      (s : Ctx net UserSpec) (api : Client net)
      → s.reconciler.api_client ≡ some api
      → let (l, t) =
          UserController.get_user net dates secrets cluster api
            (UserController.guard_finalizer net dates secrets cluster s) in
        (UserController.reconcile net dates secrets cluster s).0
        ≡ result_of l (user_attempt api (is_some s.object.meta.deletion_timestamp) l.found t)
  unfolding UserController.guard_finalizer Flow.guard_finalizer
  user_result s api client =
      let (l, t) =
        UserController.get_user net dates secrets cluster api
          (UserController.guard_finalizer net dates secrets cluster s) in
      ap (λ p. p.0) (user_reconcile_refines net dates secrets cluster s)
      ∙ reconcile_result net cluster (user_kind net dates secrets cluster)
          (user_kind-IsTame net dates secrets cluster) s api client
      ∙ ap (result_of l) (user_attempt_lem api (is_some s.object.meta.deletion_timestamp) l.found t)
