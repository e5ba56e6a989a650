-- ===== src/Controller/Flow/Results.antt =====
-- The result of a reconciliation with a client at hand, by its lookup and what follows it.
use mailu_operator.Common.{
  ◌≡◌, refl, ◌∙◌, ap, Bool, true, false, not, ◌&&◌, ◌||◌, Option, none, some, is_some, String,
  arith, if◌then◌else◌,
}
use mailu_operator.Common.Run.{Run}
use mailu_operator.Http.{Net}
use mailu_operator.Client.{Client}
use mailu_operator.Resource.{Cluster}
use mailu_operator.Controller.{Outcome, Attempt, Lookup, Ctx}
use mailu_operator.Controller.Flow
use mailu_operator.Controller.Flow.{Kind, IsTame, Plan, invalid, unchanged, change}
use mailu_operator.Controller.Flow.Finalizers.{steps_of_client}
use mailu_operator.Controller.Flow.Worlds.{guard_keeps}

-- No request, and nothing wrong.
abbrev pub nothing : Attempt
nothing = record { retry = false; error = none }

-- Five seconds, in nanoseconds, if the lookup failed for now, or what followed it is to be retried; the
-- error of what followed it, if there is one and it is not to be retried.
abbrev pub result_of : {A : Type 0} → Lookup A → Attempt → Outcome
result_of l a = record {
  requeue_after =
      if (is_some l.error && l.retry) || (not (is_some l.error) && a.retry) then 5000000000 else 0;
  error = if is_some l.error || a.retry then none else a.error;
}

module _ (net : Net) {S A : Type 0} (cluster : Cluster net.World S) (kind : Kind net S A) where
  abbrev pub attempt_plan : Plan (Run (Ctx net S) Attempt) → Ctx net S → Attempt
  attempt_plan (invalid e) s = record { retry = false; error = some e }
  attempt_plan unchanged s = nothing
  attempt_plan (change m) s = (m s).0

  -- What follows a lookup without an error.
  abbrev pub attempt : Client net → Bool → Option A → Ctx net S → Attempt
  attempt api true none s = nothing
  attempt api true (some a) s = (kind.delete_object api s).0
  attempt api false none s = (kind.create_object api s).0
  attempt api false (some a) s = attempt_plan (kind.plan_update api s.object.spec a) s

  carry_out_result :
      (p : Plan (Run (Ctx net S) Attempt)) (retry : Bool) (s : Ctx net S)
      → (Flow.carry_out net cluster kind p s).0
        ≡ result_of {A = A}
            (record { found = none; retry = retry; error = none })
            (attempt_plan p s)
  unfolding Flow.carry_out Flow.settle_at Flow.updated
  carry_out_result (invalid e) retry s = refl
  carry_out_result unchanged retry s = refl
  carry_out_result (change m) retry s = ground arith

  decide_result :
      (api : Client net) (error : Option String) (retry deleting : Bool) (found : Option A)
      (s : Ctx net S)
      → (Flow.decide_at net cluster kind api error retry deleting found s).0
        ≡ result_of
            (record { found = found; retry = retry; error = error })
            (attempt api deleting found s)
  unfolding Flow.decide_at Flow.create Flow.update Flow.delete Flow.settle_at
  decide_result api (some e) true deleting found s = refl
  decide_result api (some e) false deleting found s = refl
  decide_result api none retry true none s = refl
  decide_result api none retry true (some a) s = ground arith
  decide_result api none retry false none s = ground arith
  decide_result api none retry false (some a) s =
      carry_out_result (kind.plan_update api s.object.spec a) retry s

  -- After the finalizer is added where it is missing, the lookup and what follows it give the result.
  pub reconcile_result :
      IsTame kind
      → (s : Ctx net S) (api : Client net) → s.reconciler.api_client ≡ some api
      → let (l, t) = kind.get_object api (Flow.guard_finalizer net cluster kind s) in
        (Flow.reconcile net cluster kind s).0
        ≡ result_of l (attempt api (is_some s.object.meta.deletion_timestamp) l.found t)
  unfolding Flow.reconcile
  reconcile_result tame s api client =
      let g = Flow.guard_finalizer net cluster kind s in
      let (_, _, deletion, reconciler) = guard_keeps net cluster kind s in
      let (l, t) = kind.get_object api g in
      let same : is_some t.object.meta.deletion_timestamp
          ≡ is_some s.object.meta.deletion_timestamp =
        ap (λ o. is_some o.meta.deletion_timestamp) (tame.get_keeps api g) ∙ ap is_some deletion in
      ap (λ p. p.0)
        (steps_of_client net cluster kind g api (ap (λ r. r.api_client) reconciler ∙ client))
      ∙ decide_result api l.error l.retry (is_some t.object.meta.deletion_timestamp) l.found t
      ∙ ap (λ d. result_of l (attempt api d l.found t)) same
