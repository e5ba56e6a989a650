-- ===== src/Controller/Flow/Kinds/User.antt =====
-- The user reconciler as an instance of the common one: its operations, that they leave the rest of
-- the resource alone, and that the translated `Reconcile` is the common one at these operations.
use mailu_operator.Common.{◌≡◌, refl, Option-cases, inl, inr, if◌then◌else◌, arith}
use mailu_operator.Common.Result.{Result, ok, err, Result-cases}
use mailu_operator.Common.Run.{Run}
use mailu_operator.Json.{deep_equal}
use mailu_operator.Http.{Net}
use mailu_operator.Client.{Client}
use mailu_operator.Api.Dates.{Dates}
use mailu_operator.Api.User
use mailu_operator.Api.User.{User}
use mailu_operator.Controller.User as UserController
use mailu_operator.Controller.User.FromSpec.{user_from_spec}
use mailu_operator.Controller.User.Password.{Secrets}
use mailu_operator.Resource.{Cluster}
use mailu_operator.Resource.Specs.{UserSpec}
use mailu_operator.Controller.{Attempt, Lookup, Ctx, ensure_client}
use mailu_operator.Controller.Flow
use mailu_operator.Controller.Flow.{Kind, IsTame, Plan, invalid, unchanged, change}

module _ (net : Net) (dates : Dates) (secrets : Secrets net.World)
    (cluster : Cluster net.World UserSpec) where
  abbrev pub user_plan : Client net → UserSpec → User dates → Plan (Run (Ctx net UserSpec) Attempt)
  user_plan api spec found = elim (user_from_spec dates spec) [
    | err e ↦ invalid e
    | ok u ↦
        let wanted = UserController.wanted_user net dates secrets cluster u in
        let known = UserController.known_user net dates secrets cluster found in
        if deep_equal (User.marshal dates wanted) (User.marshal dates known)
        then unchanged
        else change (UserController.update_user net dates secrets cluster api wanted)
  ]

  abbrev pub user_kind : Kind net UserSpec (User dates)
  user_kind = record {
    condition_type = UserController.user_condition_type_ready;
    created_message = "User created in MailU";
    updated_message = "User updated in MailU";
    get_object = UserController.get_user net dates secrets cluster;
    create_object = UserController.create_user net dates secrets cluster;
    delete_object = UserController.delete_user net dates secrets cluster;
    plan_update = user_plan;
  }

  user_plan_keeps :
      (api : Client net) (spec : UserSpec) (a : User dates) (m : Run (Ctx net UserSpec) Attempt)
      (s : Ctx net UserSpec)
      → user_plan api spec a ≡ change m
      → (m s).1.object ≡ s.object
  unfolding UserController.update_user
  user_plan_keeps api spec a m s h = ground arith

  user_create_keeps_meta :
      (api : Client net) (s : Ctx net UserSpec)
      → (UserController.create_user net dates secrets cluster api s).1.object.meta ≡ s.object.meta
  unfolding UserController.create_user
  user_create_keeps_meta api s = ground arith

  user_create_keeps_conditions :
      (api : Client net) (s : Ctx net UserSpec)
      → (UserController.create_user net dates secrets cluster api s).1.object.conditions
        ≡ s.object.conditions
  unfolding UserController.create_user
  user_create_keeps_conditions api s = ground arith

  pub user_kind-IsTame : IsTame user_kind
  unfolding UserController.get_user UserController.delete_user
  user_kind-IsTame = record {
    get_keeps = λ api s. refl;
    create_keeps_meta = user_create_keeps_meta;
    create_keeps_conditions = user_create_keeps_conditions;
    delete_keeps = λ api s. refl;
    change_keeps = user_plan_keeps;
  }

  user_update_refines :
      (api : Client net) (a : User dates) (s : Ctx net UserSpec)
      → UserController.update net dates secrets cluster api a s
        ≡ Flow.update net cluster user_kind api a s
  unfolding UserController.update Flow.update
  user_update_refines api a s = elim (Result-cases (user_from_spec dates s.object.spec)) [
    | inl (e, bad) ↦ ground arith
    | inr (u, good) ↦ ground arith
  ]

  pub user_decide_refines :
      (api : Client net) (l : Lookup (User dates)) (s : Ctx net UserSpec)
      → UserController.decide net dates secrets cluster api l s
        ≡ Flow.decide net cluster user_kind api l s
  unfolding UserController.decide Flow.decide_at UserController.create Flow.create
      UserController.delete Flow.delete
  user_decide_refines api l s = elim (Option-cases l.found) [
    | inl absent ↦ ground arith
    | inr (a, found) ↦ ground (arith, user_update_refines api a s)
  ]

  user_proceed_refines :
      (r : Result (Client net)) (s : Ctx net UserSpec)
      → UserController.proceed net dates secrets cluster r s
        ≡ Flow.proceed net cluster user_kind r s
  unfolding UserController.proceed Flow.proceed
  user_proceed_refines (err e) s = refl
  user_proceed_refines (ok api) s =
      let (l, t) = UserController.get_user net dates secrets cluster api s in
      user_decide_refines api l t

  user_steps_refine :
      (s : Ctx net UserSpec)
      → UserController.reconcile_steps net dates secrets cluster s
        ≡ Flow.steps net cluster user_kind s
  unfolding UserController.reconcile_steps Flow.steps
  user_steps_refine s = let (r, t) = ensure_client s in user_proceed_refines r t

  -- From every state `Reconcile` of the user controller has the result and leaves the state that the common
  -- reconciler has and leaves at the lookup, creation, planned update and deletion of that controller.
  pub user_reconcile_refines :
      (s : Ctx net UserSpec)
      → UserController.reconcile net dates secrets cluster s
        ≡ Flow.reconcile net cluster user_kind s
  unfolding UserController.reconcile Flow.reconcile Flow.guard_finalizer Flow.release_finalizer
  user_reconcile_refines s = rw user_steps_refine
