-- ===== src/Controller/Flow/Kinds/Domain.antt =====
-- The domain reconciler as an instance of the common one: its operations, that they leave the rest of
-- the resource alone, and that the translated `Reconcile` is the common one at these operations.
use mailu_operator.Common.{◌≡◌, refl, Option-cases, inl, inr, if◌then◌else◌, arith}
use mailu_operator.Common.Result.{Result, ok, err}
use mailu_operator.Common.Run.{Run}
use mailu_operator.Json.{deep_equal}
use mailu_operator.Http.{Net}
use mailu_operator.Client.{Client}
use mailu_operator.Api.Domain
use mailu_operator.Api.Domain.{Domain}
use mailu_operator.Controller.Domain as DomainController
use mailu_operator.Resource.{Cluster}
use mailu_operator.Resource.Specs.{DomainSpec}
use mailu_operator.Controller.{Attempt, Lookup, Ctx, ensure_client}
use mailu_operator.Controller.Flow
use mailu_operator.Controller.Flow.{Kind, IsTame, Plan, invalid, unchanged, change}

module _ (net : Net) (cluster : Cluster net.World DomainSpec) where
  abbrev pub domain_plan :
      Client net → DomainSpec → Domain → Plan (Run (Ctx net DomainSpec) Attempt)
  domain_plan api spec found =
      let wanted = DomainController.new_domain spec in
      if deep_equal (Domain.marshal wanted) (Domain.marshal found)
      then unchanged
      else change (DomainController.update_domain net cluster api wanted)

  abbrev pub domain_kind : Kind net DomainSpec Domain
  domain_kind = record {
    condition_type = DomainController.domain_condition_type_ready;
    created_message = "Domain created in MailU";
    updated_message = "Domain updated in MailU";
    get_object = DomainController.get_domain net cluster;
    create_object = DomainController.create_domain net cluster;
    delete_object = DomainController.delete_domain net cluster;
    plan_update = domain_plan;
  }

  domain_plan_keeps :
      (api : Client net) (spec : DomainSpec) (a : Domain) (m : Run (Ctx net DomainSpec) Attempt)
      (s : Ctx net DomainSpec)
      → domain_plan api spec a ≡ change m
      → (m s).1.object ≡ s.object
  unfolding DomainController.update_domain
  domain_plan_keeps api spec a m s h = ground arith

  pub domain_kind-IsTame : IsTame domain_kind
  unfolding DomainController.get_domain DomainController.create_domain
      DomainController.delete_domain
  domain_kind-IsTame = record {
    get_keeps = λ api s. refl;
    create_keeps_meta = λ api s. refl;
    create_keeps_conditions = λ api s. refl;
    delete_keeps = λ api s. refl;
    change_keeps = domain_plan_keeps;
  }

  domain_update_refines :
      (api : Client net) (a : Domain) (s : Ctx net DomainSpec)
      → DomainController.update net cluster api a s ≡ Flow.update net cluster domain_kind api a s
  unfolding DomainController.update Flow.update
  domain_update_refines api a s = ground arith

  pub domain_decide_refines :
      (api : Client net) (l : Lookup Domain) (s : Ctx net DomainSpec)
      → DomainController.decide net cluster api l s ≡ Flow.decide net cluster domain_kind api l s
  unfolding DomainController.decide Flow.decide_at DomainController.create Flow.create
      DomainController.delete Flow.delete
  domain_decide_refines api l s = elim (Option-cases l.found) [
    | inl absent ↦ ground arith
    | inr (a, found) ↦ ground (arith, domain_update_refines api a s)
  ]

  domain_proceed_refines :
      (r : Result (Client net)) (s : Ctx net DomainSpec)
      → DomainController.proceed net cluster r s ≡ Flow.proceed net cluster domain_kind r s
  unfolding DomainController.proceed Flow.proceed
  domain_proceed_refines (err e) s = refl
  domain_proceed_refines (ok api) s =
      let (l, t) = DomainController.get_domain net cluster api s in domain_decide_refines api l t

  domain_steps_refine :
      (s : Ctx net DomainSpec)
      → DomainController.reconcile_steps net cluster s ≡ Flow.steps net cluster domain_kind s
  unfolding DomainController.reconcile_steps Flow.steps
  domain_steps_refine s = let (r, t) = ensure_client s in domain_proceed_refines r t

  -- From every state `Reconcile` of the domain controller has the result and leaves the state that the common
  -- reconciler has and leaves at the lookup, creation, planned update and deletion of that controller.
  pub domain_reconcile_refines :
      (s : Ctx net DomainSpec)
      → DomainController.reconcile net cluster s ≡ Flow.reconcile net cluster domain_kind s
  unfolding DomainController.reconcile Flow.reconcile Flow.guard_finalizer Flow.release_finalizer
  domain_reconcile_refines s = rw domain_steps_refine
