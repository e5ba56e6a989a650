-- ===== src/Controller/Flow.antt =====
-- What the three reconcilers have in common, over the operations in which they differ: one reconciler for
-- any kind of resource. Controller/Flow/Kinds proves that the three translated reconcilers are instances
-- of it; the modules below prove what holds of every instance.
pub mod Kinds
pub mod Outcomes
pub mod Finalizers
pub mod Status
pub mod Success
pub mod UpToDate
pub mod Spec
pub mod Worlds
pub mod Untouched
pub mod Served
pub mod Results
use mailu_operator.Common.{
  String, Bool, true, false, not, ◌&&◌, Option, none, some, is_some, ◌==◌, ◌≡◌, if◌then◌else◌,
}
use mailu_operator.Common.Result.{Result, ok, err}
use mailu_operator.Common.Run.{Run, pure, get, ◌>>=◌, ◌>>◌}
use mailu_operator.Http.{Net}
use mailu_operator.Client.{Client}
use mailu_operator.Resource.{
  Object, Condition, ConditionStatus, condition_true, condition_false, Cluster, finalizer_name,
}
use mailu_operator.Controller.{
  Outcome, requeue, finished, failed, Attempt, Lookup, Ctx, set_condition, set_finalizers,
  apply_patches, ensure_client,
}

-- What an update does, from the resource and the object that was found: the resource is invalid, or there
-- is nothing to do, or a request is sent.
pub data Plan (M : Type 0) : Type 0 where
  invalid : String → Plan M
  unchanged : Plan M
  change : M → Plan M

-- A kind of resource with spec `S`, and its objects `A` in the Mailu API.
pub record Kind (net : Net) (S A : Type 0) : Type 0 where
  pub condition_type : String
  pub created_message : String
  pub updated_message : String
  pub get_object : Client net → Run (Ctx net S) (Lookup A)
  pub create_object : Client net → Run (Ctx net S) Attempt
  pub delete_object : Client net → Run (Ctx net S) Attempt
  pub plan_update : Client net → S → A → Plan (Run (Ctx net S) Attempt)

-- The operations change nothing of the resource but, in a creation, its spec.
pub record IsTame {net : Net} {S A : Type 0} (kind : Kind net S A) : Type 0 where
  pub get_keeps : (api : Client net) (s : Ctx net S) → (kind.get_object api s).1.object ≡ s.object
  pub create_keeps_meta :
      (api : Client net) (s : Ctx net S) → (kind.create_object api s).1.object.meta ≡ s.object.meta
  pub create_keeps_conditions :
      (api : Client net) (s : Ctx net S)
      → (kind.create_object api s).1.object.conditions ≡ s.object.conditions
  pub delete_keeps :
      (api : Client net) (s : Ctx net S) → (kind.delete_object api s).1.object ≡ s.object
  pub change_keeps :
      (api : Client net) (spec : S) (a : A) (m : Run (Ctx net S) Attempt) (s : Ctx net S)
      → kind.plan_update api spec a ≡ change m
      → (m s).1.object ≡ s.object

module _ (net : Net) {S A : Type 0} (cluster : Cluster net.World S) (kind : Kind net S A) where
  abbrev pub ready : ConditionStatus → String → String → Condition
  ready status reason message = record {
    type = kind.condition_type;
    status = status;
    reason = reason;
    message = message;
    last_transition_time = none;
  }

  abbrev pub report : ConditionStatus → String → String → Run (Ctx net S) Unit
  report status reason message = set_condition cluster (ready status reason message)

  -- What follows an attempt: an error is reported, and `success` runs if there is nothing to retry.
  unfoldable pub settle_at :
      Option String → Bool → Run (Ctx net S) Outcome → Run (Ctx net S) Outcome
  settle_at (some e) again success = do
    report condition_false "Error" e
    pure (if again then requeue else failed e)
  settle_at none true success = pure requeue
  settle_at none false success = success

  abbrev pub settle : Attempt → Run (Ctx net S) Outcome → Run (Ctx net S) Outcome
  settle attempt = settle_at attempt.error attempt.retry

  unfoldable pub create : Client net → Run (Ctx net S) Outcome
  unfolding settle_at
  create api = do
    attempt ← kind.create_object api
    settle attempt (do report condition_true "Created" kind.created_message; pure finished)

  unfoldable pub updated : Run (Ctx net S) Outcome
  updated = do report condition_true "Updated" kind.updated_message; pure finished

  unfoldable pub carry_out : Plan (Run (Ctx net S) Attempt) → Run (Ctx net S) Outcome
  unfolding settle_at updated
  carry_out (invalid e) = do report condition_false "Error" e; pure (failed e)
  carry_out unchanged = updated
  carry_out (change m) = do attempt ← m; settle attempt updated

  unfoldable pub update : Client net → A → Run (Ctx net S) Outcome
  unfolding carry_out
  update api found s = carry_out (kind.plan_update api s.object.spec found) s

  unfoldable pub delete : Client net → Run (Ctx net S) Outcome
  unfolding settle_at
  delete api = do attempt ← kind.delete_object api; settle attempt (pure finished)

  -- By the error and the retry flag of the lookup, whether the resource is being deleted, and what was found.
  unfoldable pub decide_at :
      Client net → Option String → Bool → Bool → Option A → Run (Ctx net S) Outcome
  decide_at api (some e) true deleting found s = (requeue, s)
  decide_at api (some e) false deleting found s =
      (report condition_false "Error" e >>= λ _. pure finished) s
  decide_at api none retry true none s = (finished, s)
  decide_at api none retry true (some a) s = delete api s
  decide_at api none retry false none s = create api s
  decide_at api none retry false (some a) s = update api a s

  abbrev pub decide : Client net → Lookup A → Run (Ctx net S) Outcome
  decide api lookup s =
      decide_at api lookup.error lookup.retry (is_some s.object.meta.deletion_timestamp)
        lookup.found s

  unfoldable pub proceed : Result (Client net) → Run (Ctx net S) Outcome
  proceed (err e) = pure (failed e)
  proceed (ok api) = do lookup ← kind.get_object api; decide api lookup

  unfoldable pub steps : Run (Ctx net S) Outcome
  steps = do client ← ensure_client; proceed client

  unfoldable pub guard_finalizer : Ctx net S → Ctx net S
  guard_finalizer s =
      let fs = s.object.meta.finalizers in
      if not (is_some s.object.meta.deletion_timestamp)
        && not (cluster.contains_finalizer fs finalizer_name)
      then set_finalizers (cluster.add_finalizer fs finalizer_name) s
      else s

  unfoldable pub release_finalizer : Object S → Outcome → Ctx net S → Ctx net S
  release_finalizer original result s = elim result.error [
    | some e ↦ s
    | none ↦
        if is_some original.meta.deletion_timestamp && result.requeue_after == 0
        then set_finalizers (cluster.remove_finalizer s.object.meta.finalizers finalizer_name) s
        else s
  ]

  unfoldable pub reconcile : Run (Ctx net S) Outcome
  reconcile s =
      let (result, t) = steps (guard_finalizer s) in
      (result, apply_patches cluster s.object (release_finalizer s.object result t))
