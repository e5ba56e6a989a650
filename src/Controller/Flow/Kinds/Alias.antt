-- ===== src/Controller/Flow/Kinds/Alias.antt =====
-- The alias reconciler as an instance of the common one: its operations, that they leave the rest of
-- the resource alone, and that the translated `Reconcile` is the common one at these operations.
use mailu_operator.Common.{◌≡◌, refl, Option-cases, inl, inr, if◌then◌else◌, arith}
use mailu_operator.Common.Result.{Result, ok, err}
use mailu_operator.Common.Run.{Run}
use mailu_operator.Json.{deep_equal}
use mailu_operator.Http.{Net}
use mailu_operator.Client.{Client}
use mailu_operator.Api.Alias
use mailu_operator.Api.Alias.{Alias}
use mailu_operator.Controller.Alias as AliasController
use mailu_operator.Resource.{Cluster}
use mailu_operator.Resource.Specs.{AliasSpec}
use mailu_operator.Controller.{Attempt, Lookup, Ctx, ensure_client}
use mailu_operator.Controller.Flow
use mailu_operator.Controller.Flow.{Kind, IsTame, Plan, invalid, unchanged, change}

module _ (net : Net) (cluster : Cluster net.World AliasSpec) where
  abbrev pub alias_plan : Client net → AliasSpec → Alias → Plan (Run (Ctx net AliasSpec) Attempt)
  alias_plan api spec found =
      let wanted = AliasController.new_alias spec in
      if deep_equal (Alias.marshal wanted) (Alias.marshal found)
      then unchanged
      else change (AliasController.update_alias net cluster api wanted)

  abbrev pub alias_kind : Kind net AliasSpec Alias
  alias_kind = record {
    condition_type = AliasController.alias_condition_type_ready;
    created_message = "Alias created in MailU";
    updated_message = "Alias updated in MailU";
    get_object = AliasController.get_alias net cluster;
    create_object = AliasController.create_alias net cluster;
    delete_object = AliasController.delete_alias net cluster;
    plan_update = alias_plan;
  }

  alias_plan_keeps :
      (api : Client net) (spec : AliasSpec) (a : Alias) (m : Run (Ctx net AliasSpec) Attempt)
      (s : Ctx net AliasSpec)
      → alias_plan api spec a ≡ change m
      → (m s).1.object ≡ s.object
  unfolding AliasController.update_alias
  alias_plan_keeps api spec a m s h = ground arith

  pub alias_kind-IsTame : IsTame alias_kind
  unfolding AliasController.get_alias AliasController.create_alias AliasController.delete_alias
  alias_kind-IsTame = record {
    get_keeps = λ api s. refl;
    create_keeps_meta = λ api s. refl;
    create_keeps_conditions = λ api s. refl;
    delete_keeps = λ api s. refl;
    change_keeps = alias_plan_keeps;
  }

  alias_update_refines :
      (api : Client net) (a : Alias) (s : Ctx net AliasSpec)
      → AliasController.update net cluster api a s ≡ Flow.update net cluster alias_kind api a s
  unfolding AliasController.update Flow.update
  alias_update_refines api a s = ground arith

  pub alias_decide_refines :
      (api : Client net) (l : Lookup Alias) (s : Ctx net AliasSpec)
      → AliasController.decide net cluster api l s ≡ Flow.decide net cluster alias_kind api l s
  unfolding AliasController.decide Flow.decide_at AliasController.create Flow.create
      AliasController.delete Flow.delete
  alias_decide_refines api l s = elim (Option-cases l.found) [
    | inl absent ↦ ground arith
    | inr (a, found) ↦ ground (arith, alias_update_refines api a s)
  ]

  alias_proceed_refines :
      (r : Result (Client net)) (s : Ctx net AliasSpec)
      → AliasController.proceed net cluster r s ≡ Flow.proceed net cluster alias_kind r s
  unfolding AliasController.proceed Flow.proceed
  alias_proceed_refines (err e) s = refl
  alias_proceed_refines (ok api) s =
      let (l, t) = AliasController.get_alias net cluster api s in alias_decide_refines api l t

  alias_steps_refine :
      (s : Ctx net AliasSpec)
      → AliasController.reconcile_steps net cluster s ≡ Flow.steps net cluster alias_kind s
  unfolding AliasController.reconcile_steps Flow.steps
  alias_steps_refine s = let (r, t) = ensure_client s in alias_proceed_refines r t

  -- From every state `Reconcile` of the alias controller has the result and leaves the state that the common
  -- reconciler has and leaves at the lookup, creation, planned update and deletion of that controller.
  pub alias_reconcile_refines :
      (s : Ctx net AliasSpec)
      → AliasController.reconcile net cluster s ≡ Flow.reconcile net cluster alias_kind s
  unfolding AliasController.reconcile Flow.reconcile Flow.guard_finalizer Flow.release_finalizer
  alias_reconcile_refines s = rw alias_steps_refine
