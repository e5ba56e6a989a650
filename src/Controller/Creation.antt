-- ===== src/Controller/Creation.antt =====
-- What a creation sends and stores, in internal/controller/domain_controller.go and user_controller.go.
use mailu_operator.Common.{
  ◌≡◌, ◌≢◌, ◌⊎◌, refl, ap, ◌∙◌, [], true, false, none, some, arith, inl, inr, str_eq, eq_iff,
  Bool-cases,
}
use mailu_operator.Http.{Net}
use mailu_operator.Client.{Client}
use mailu_operator.Client.Calls
use mailu_operator.Api.Dates.{Dates}
use mailu_operator.Api.Domain.{Domain}
use mailu_operator.Resource.{Cluster, finalizer_name}
use mailu_operator.Resource.Specs.{DomainSpec, UserSpec}
use mailu_operator.Controller.{Ctx}
use mailu_operator.Controller.Domain as DomainController
use mailu_operator.Controller.User as UserController
use mailu_operator.Controller.User.Password.{Secrets, get_raw_user_password}
use mailu_operator.Controller.Flow.Kinds.User.{user_kind, user_kind-IsTame, user_reconcile_refines}
use mailu_operator.Controller.Flow.Spec.{created_spec}

module _ (net : Net) (cluster : Cluster net.World DomainSpec) where
  -- A domain is created with the body that an update would have, but without its alternatives, and that
  -- body is never the domain that an update wants.
  pub domain_creation_drops_alternatives :
      (api : Client net) (s : Ctx net DomainSpec)
      → let wanted = DomainController.new_domain s.object.spec in
        let sent : Domain = record wanted { alternatives = none } in
        ((DomainController.create_domain net cluster api s).1.world
          ≡ (Calls.create_domain net api sent [] s.world).1)
        × (sent ≢ wanted)
  unfolding DomainController.create_domain
  domain_creation_drops_alternatives api s = (refl, λ h. cc (ap (λ (d : Domain). d.alternatives) h))

module _ (net : Net) (dates : Dates) (secrets : Secrets net.World)
    (cluster : Cluster net.World UserSpec) where
  -- `createUser` changes no field of the spec but the raw password, and that one only if it was empty;
  -- then it stores there the text of `getRawUserPassword`.
  pub create_user_spec :
      (api : Client net) (s : Ctx net UserSpec)
      → let spec = s.object.spec in
        let t = (UserController.create_user net dates secrets cluster api s).1 in
        ((spec.raw_password ≢ "") × (t.object.spec ≡ spec))
        ⊎ ((spec.raw_password ≡ "")
            × (t.object.spec ≡ record spec {
              raw_password = (get_raw_user_password secrets s.object s.world).0.0;
            }))
  unfolding UserController.create_user
  create_user_spec api s =
      let e = eq_iff s.object.spec.raw_password "" in
      elim (Bool-cases (str_eq s.object.spec.raw_password "")) [
        | inl empty ↦ inr (ground (arith, e), ground (arith, empty))
        | inr given ↦ inl (λ h. cc (e.1 h), ground (arith, given))
      ]

  generated_password :
      (api : Client net) (s : Ctx net UserSpec)
      → s.object.spec.raw_password ≡ ""
      → (UserController.create_user net dates secrets cluster api s).1.object.spec
        ≡ record s.object.spec {
          raw_password = (get_raw_user_password secrets s.object s.world).0.0;
        }
  unfolding UserController.create_user
  generated_password api s missing = ground (arith, eq_iff s.object.spec.raw_password "")

  -- With a client at hand, a live user that has the finalizer and no raw password, and that is not found in
  -- Mailu: after `Reconcile` the spec of the resource, which the deferred function patches, holds the text of
  -- `getRawUserPassword` as its raw password, so also one that was read from a secret.
  pub created_user_keeps_password :
      (s : Ctx net UserSpec) (api : Client net)
      → s.reconciler.api_client ≡ some api
      → s.object.meta.deletion_timestamp ≡ none
      → cluster.contains_finalizer s.object.meta.finalizers finalizer_name ≡ true
      → s.object.spec.raw_password ≡ ""
      → (UserController.get_user net dates secrets cluster api s).0
        ≡ record { found = none; retry = false; error = none }
      → let w = (UserController.get_user net dates secrets cluster api s).1.world in
        (UserController.reconcile net dates secrets cluster s).1.object.spec
        ≡ record s.object.spec { raw_password = (get_raw_user_password secrets s.object w).0.0 }
  unfolding UserController.get_user
  created_user_keeps_password s api h live kept empty absent = rw user_reconcile_refines (
      created_spec net cluster (user_kind net dates secrets cluster)
        (user_kind-IsTame net dates secrets cluster) s api h live kept absent
      ∙ generated_password api (UserController.get_user net dates secrets cluster api s).1 empty)
