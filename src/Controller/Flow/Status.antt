-- ===== src/Controller/Flow/Status.antt =====
-- What the conditions of a resource report after a reconciliation.
use mailu_operator.Common.{
  String, ◌≡◌, sym, subst, Bool, true, false, Option, none, some, arith, List, is_some,
}
use mailu_operator.Common.Result.{Result, ok, err}
use mailu_operator.Common.Run.{Run}
use mailu_operator.Http.{Net}
use mailu_operator.Client.{Client}
use mailu_operator.Resource.{
  Object, Condition, condition_false, Cluster, IsLawful, SameReport, find_condition,
}
use mailu_operator.Controller.{Outcome, Attempt, Ctx, ensure_client, apply_patches}
use mailu_operator.Controller.Flow
use mailu_operator.Controller.Flow.{Kind, IsTame, Plan, invalid, unchanged, change}
use mailu_operator.Controller.Flow.Outcomes.{ensure_client_ok}

-- The condition of type `c.type` is there, with the status, reason and message of `c`.
abbrev pub Reports : List Condition → Condition → Type 0
Reports cs c = (d : Condition) × (find_condition c.type cs ≡ some d) × SameReport d c

module _ (net : Net) {S A : Type 0} (cluster : Cluster net.World S) (kind : Kind net S A)
    (lawful : IsLawful cluster) where
  abbrev error_condition : String → Condition
  error_condition = Flow.ready net cluster kind condition_false "Error"

  -- The error of a result is what the Ready condition reports.
  abbrev Failures : Outcome × Ctx net S → Type 0
  Failures (r, s) =
      (e : String) → r.error ≡ some e → Reports s.object.conditions (error_condition e)

  settle-Failures :
      (error : Option String) (again : Bool) (m : Run (Ctx net S) Outcome) (s : Ctx net S)
      → Failures (m s)
      → Failures (Flow.settle_at net cluster kind error again m s)
  unfolding Flow.settle_at
  settle-Failures (some e) true m s h e' p = cc
  settle-Failures (some e) false m s h e' p =
      subst
        (λ x.
          Reports (cluster.set_status_condition s.world s.object.conditions (error_condition e))
            (error_condition x))
        (cc) (lawful.set_condition_found s.world s.object.conditions (error_condition e))
  settle-Failures none true m s h e' p = cc
  settle-Failures none false m s h e p = h e p

  carry_out-Failures :
      (p : Plan (Run (Ctx net S) Attempt)) (s : Ctx net S)
      → Failures (Flow.carry_out net cluster kind p s)
  unfolding Flow.carry_out Flow.updated
  carry_out-Failures (invalid e) s e' q =
      subst
        (λ x.
          Reports (cluster.set_status_condition s.world s.object.conditions (error_condition e))
            (error_condition x))
        (cc) (lawful.set_condition_found s.world s.object.conditions (error_condition e))
  carry_out-Failures unchanged s e q = cc
  carry_out-Failures (change m) s e q =
      settle-Failures (m s).0.error (m s).0.retry (Flow.updated net cluster kind) (m s).1
        (λ e' q'. cc) e q

  create-Failures :
      (api : Client net) (s : Ctx net S) → Failures (Flow.create net cluster kind api s)
  unfolding Flow.create
  create-Failures api s =
      let (a, t) = kind.create_object api s in settle-Failures a.error a.retry _ t (λ e q. cc)

  delete-Failures :
      (api : Client net) (s : Ctx net S) → Failures (Flow.delete net cluster kind api s)
  unfolding Flow.delete
  delete-Failures api s =
      let (a, t) = kind.delete_object api s in settle-Failures a.error a.retry _ t (λ e q. cc)

  decide-Failures :
      (api : Client net) (error : Option String) (again deleting : Bool) (found : Option A)
      (s : Ctx net S)
      → Failures (Flow.decide_at net cluster kind api error again deleting found s)
  unfolding Flow.decide_at Flow.update
  decide-Failures api (some e) true deleting found s e' q = cc
  decide-Failures api (some e) false deleting found s e' q = cc
  decide-Failures api none again true none s e' q = cc
  decide-Failures api none again true (some a) s e' q = delete-Failures api s e' q
  decide-Failures api none again false none s e' q = create-Failures api s e' q
  decide-Failures api none again false (some a) s e' q =
      carry_out-Failures (kind.plan_update api s.object.spec a) s e' q

  proceed-Failures :
      (r : Result (Client net)) (api : Client net) (s : Ctx net S)
      → r ≡ ok api
      → Failures (Flow.proceed net cluster kind r s)
  unfolding Flow.proceed
  proceed-Failures (err e) api s h = cc
  proceed-Failures (ok api) _ s h =
      let (l, t) = kind.get_object api s in
      decide-Failures api l.error l.retry (is_some t.object.meta.deletion_timestamp) l.found t

  pub steps-Failures : (s : Ctx net S) → Failures (Flow.steps net cluster kind s)
  unfolding Flow.steps
  steps-Failures s =
      let (api, created) = ensure_client_ok s in
      proceed-Failures (ensure_client s).0 api (ensure_client s).1 created

-- The deferred patches and the finalizer leave the conditions alone.
module _ (net : Net) {S A : Type 0} (cluster : Cluster net.World S) (kind : Kind net S A) where
  guard_finalizer_conditions :
      (s : Ctx net S)
      → (Flow.guard_finalizer net cluster kind s).object.conditions ≡ s.object.conditions
  unfolding Flow.guard_finalizer
  guard_finalizer_conditions s = ground arith

  release_finalizer_conditions :
      (o : Object S) (r : Outcome) (s : Ctx net S)
      → (Flow.release_finalizer net cluster kind o r s).object.conditions ≡ s.object.conditions
  unfolding Flow.release_finalizer
  release_finalizer_conditions o r s = ground arith

  pub reconcile_conditions :
      (s : Ctx net S)
      → (Flow.reconcile net cluster kind s).1.object.conditions
        ≡ (Flow.steps net cluster kind
            (Flow.guard_finalizer net cluster kind s)).1.object.conditions
  unfolding Flow.reconcile apply_patches
  reconcile_conditions s =
      let (r, t) = Flow.steps net cluster kind (Flow.guard_finalizer net cluster kind s) in
      release_finalizer_conditions s.object r t

module _ (net : Net) {S A : Type 0} (cluster : Cluster net.World S) (kind : Kind net S A)
    (lawful : IsLawful cluster) where
  -- An error that a reconciliation returns is what the Ready condition reports, as False with reason Error.
  pub reconcile-Failures :
      (s : Ctx net S) (e : String)
      → (Flow.reconcile net cluster kind s).0.error ≡ some e
      → Reports
          (Flow.reconcile net cluster kind s).1.object.conditions
          (Flow.ready net cluster kind condition_false "Error" e)
  unfolding Flow.reconcile
  reconcile-Failures s e q =
      subst (λ cs. Reports cs (Flow.ready net cluster kind condition_false "Error" e))
        (sym (reconcile_conditions net cluster kind s))
        (steps-Failures net cluster kind lawful (Flow.guard_finalizer net cluster kind s) e q)
