-- ===== src/Controller/Flow/Served.antt =====
-- The common reconciler against an API that serves its requests: what its steps do, by what Mailu stores.
pub mod Rounds
use mailu_operator.Common.{
  ℕ, zero, suc, ◌≡◌, refl, sym, ◌∙◌, ap, subst, Bool, true, false, not, Option, none, some, is_some,
  arith, ◌==◌, if◌then◌else◌, Option-cases, inl, inr, ◌⊎◌,
}
use mailu_operator.Common.Run.{Run}
use mailu_operator.Http.{Net}
use mailu_operator.Client.{Client}
use mailu_operator.Resource.{Object, Cluster, finalizer_name}
use mailu_operator.Controller.{Outcome, finished, Attempt, Lookup, Ctx, apply_patches}
use mailu_operator.Controller.Flow
use mailu_operator.Controller.Flow.Worlds.{
  create_world, delete_world, change_world, unchanged_world, release_world,
}
use mailu_operator.Controller.Flow.{Kind, IsTame, Plan, invalid, unchanged, change}
use mailu_operator.Controller.Flow.Finalizers.{
  patched, released, steps_of_client, guard_finalizer_deleted, apply_patches_object,
  finalizers_deleted,
}

-- No error, and nothing to retry.
abbrev pub done : Attempt
done = record { retry = false; error = none }

-- What `stored` shows of the world is what the lookup finds, and the other operations change it as they
-- promise, for the specs that are ready; `Made` is what a creation promises.
pub record IsServed {net : Net} {S A : Type 0} (cluster : Cluster net.World S) (kind : Kind net S A)
    (api : Client net) (stored : net.World → S → Option A) (IsReady : S → Type 0)
    (Made : S → A → Type 0) : Type 0 where
  pub get_finds :
      (s : Ctx net S)
      → (kind.get_object api s).0
        ≡ record { found = stored s.world s.object.spec; retry = false; error = none }
  pub get_keeps_stored :
      (s : Ctx net S) (spec : S) → stored (kind.get_object api s).1.world spec ≡ stored s.world spec
  pub create_works :
      (s : Ctx net S)
      → IsReady s.object.spec
      → stored s.world s.object.spec ≡ none
      → (kind.create_object api s).0 ≡ done
  pub create_stores :
      (s : Ctx net S)
      → IsReady s.object.spec
      → stored s.world s.object.spec ≡ none
      → (a : A) × (stored (kind.create_object api s).1.world s.object.spec ≡ some a)
        × Made s.object.spec a
  pub plan_valid :
      (spec : S) (a : A)
      → IsReady spec
      → (kind.plan_update api spec a ≡ unchanged)
        ⊎ ((m : Run (Ctx net S) Attempt) × (kind.plan_update api spec a ≡ change m))
  pub change_works :
      (s : Ctx net S) (a : A) (m : Run (Ctx net S) Attempt)
      → IsReady s.object.spec
      → stored s.world s.object.spec ≡ some a
      → kind.plan_update api s.object.spec a ≡ change m
      → (m s).0 ≡ done
  pub change_stores :
      (s : Ctx net S) (a : A) (m : Run (Ctx net S) Attempt)
      → IsReady s.object.spec
      → stored s.world s.object.spec ≡ some a
      → kind.plan_update api s.object.spec a ≡ change m
      → (b : A) × (stored (m s).1.world s.object.spec ≡ some b)
        × (kind.plan_update api s.object.spec b ≡ unchanged)
  pub delete_works : (s : Ctx net S) → (kind.delete_object api s).0 ≡ done
  pub delete_stores :
      (s : Ctx net S) → stored (kind.delete_object api s).1.world s.object.spec ≡ none
  pub patches_keep :
      (o original : Object S) (w : net.World) (spec : S)
      → stored (patched cluster original o w) spec ≡ stored w spec
  pub reconcile_keeps :
      (s : Ctx net S)
      → s.reconciler.api_client ≡ some api
      → let t = (Flow.reconcile net cluster kind s).1 in
        (t.object.spec ≡ s.object.spec)
        × (t.object.meta.deletion_timestamp ≡ s.object.meta.deletion_timestamp)
        × (t.reconciler.api_client ≡ some api)

module _ (net : Net) {S A : Type 0} (cluster : Cluster net.World S) (kind : Kind net S A)
    (tame : IsTame kind) (api : Client net) (stored : net.World → S → Option A)
    (IsReady : S → Type 0) (Made : S → A → Type 0)
    (served : IsServed cluster kind api stored IsReady Made) where
  abbrev pub Settled : S → Option A → Type 0
  Settled spec o = (b : A) × (o ≡ some b) × (kind.plan_update api spec b ≡ unchanged)

  -- What is stored after a reconciliation is what is stored after its steps.
  pub stored_after :
      (s : Ctx net S) (spec : S)
      → stored (Flow.reconcile net cluster kind s).1.world spec
        ≡ stored
            (Flow.steps net cluster kind (Flow.guard_finalizer net cluster kind s)).1.world
            spec
  unfolding Flow.reconcile apply_patches
  stored_after s spec =
      let (r, t) = Flow.steps net cluster kind (Flow.guard_finalizer net cluster kind s) in
      let u = Flow.release_finalizer net cluster kind s.object r t in
      served.patches_keep u.object s.object u.world spec
      ∙ ap (λ w. stored w spec) (release_world net cluster kind s.object r t)

  -- With a client at hand, the lookup of what is stored decides what the steps do.
  steps_by_stored :
      (s : Ctx net S) (deleting : Bool) (o : Option A)
      → s.reconciler.api_client ≡ some api
      → is_some s.object.meta.deletion_timestamp ≡ deleting
      → stored s.world s.object.spec ≡ o
      → Flow.steps net cluster kind s
        ≡ Flow.decide_at net cluster kind api none false deleting o (kind.get_object api s).1
  steps_by_stored s deleting o client g h =
      steps_of_client net cluster kind s api client
      ∙ ap (λ (l : Lookup A). Flow.decide net cluster kind api l (kind.get_object api s).1)
          (served.get_finds s)
      ∙ ap
          (λ (p : Bool × Option A).
            Flow.decide_at net cluster kind api none false p.0 p.1 (kind.get_object api s).1)
          (λ i. ((ap (λ x. is_some x.meta.deletion_timestamp) (tame.get_keeps api s) ∙ g) i, h i))

  spec_of_get : (s : Ctx net S) → (kind.get_object api s).1.object.spec ≡ s.object.spec
  spec_of_get s = ap (λ o. o.spec) (tame.get_keeps api s)

  stored_of_get :
      (s : Ctx net S)
      → stored (kind.get_object api s).1.world (kind.get_object api s).1.object.spec
        ≡ stored s.world s.object.spec
  stored_of_get s = rw (spec_of_get s) (served.get_keeps_stored s s.object.spec)

  update_settles :
      (s : Ctx net S) (a : A)
      → IsReady s.object.spec
      → stored s.world s.object.spec ≡ some a
      → Settled s.object.spec (stored (Flow.update net cluster kind api a s).1.world s.object.spec)
  unfolding Flow.update
  update_settles s a ready present = elim (served.plan_valid s.object.spec a ready) [
    | inl same ↦ (
      a,
      rw same (ap (λ w. stored w s.object.spec) (unchanged_world net cluster kind s) ∙ present),
      same,
    )
    | inr (m, planned) ↦
        let (b, kept, same) = served.change_stores s a m ready present planned in
        (
          b,
          rw planned (ap (λ w. stored w s.object.spec) (change_world net cluster kind m s) ∙ kept),
          same,
        )
  ]

  pub absent_is_created :
      (s : Ctx net S)
      → s.reconciler.api_client ≡ some api
      → s.object.meta.deletion_timestamp ≡ none
      → IsReady s.object.spec
      → stored s.world s.object.spec ≡ none
      → (a : A) × (stored (Flow.steps net cluster kind s).1.world s.object.spec ≡ some a)
        × Made s.object.spec a
  unfolding Flow.decide_at
  absent_is_created s client live ready absent =
      let t = (kind.get_object api s).1 in
      let (a, h, made) =
        served.create_stores t (subst IsReady (sym (spec_of_get s)) ready)
          (stored_of_get s ∙ absent) in
      (
        a,
        rw (steps_by_stored s false none client (ap is_some live) absent) (
            ap (λ w. stored w s.object.spec) (create_world net cluster kind api t)
            ∙ ap (stored (kind.create_object api t).1.world) (sym (spec_of_get s))
            ∙ h),
        subst (λ x. Made x a) (spec_of_get s) made,
      )

  pub present-IsSettled :
      (s : Ctx net S) (a : A)
      → s.reconciler.api_client ≡ some api
      → s.object.meta.deletion_timestamp ≡ none
      → IsReady s.object.spec
      → stored s.world s.object.spec ≡ some a
      → Settled s.object.spec (stored (Flow.steps net cluster kind s).1.world s.object.spec)
  unfolding Flow.decide_at Flow.update
  present-IsSettled s a client live ready present =
      let t = (kind.get_object api s).1 in
      rw (steps_by_stored s false (some a) client (ap is_some live) present) (
        subst (λ spec. Settled spec (stored (Flow.update net cluster kind api a t).1.world spec))
          (spec_of_get s)
          (update_settles t a (subst IsReady (sym (spec_of_get s)) ready)
            (stored_of_get s ∙ present)))

  pub deleting_empties :
      (s : Ctx net S) (d : ℕ)
      → s.reconciler.api_client ≡ some api
      → s.object.meta.deletion_timestamp ≡ some d
      → stored (Flow.steps net cluster kind s).1.world s.object.spec ≡ none
  unfolding Flow.decide_at
  deleting_empties s d client deleted =
      let t = (kind.get_object api s).1 in
      elim (Option-cases (stored s.world s.object.spec)) [
        | inl absent ↦
            rw (steps_by_stored s true none client (ap is_some deleted) absent)
              (served.get_keeps_stored s s.object.spec ∙ absent)
        | inr (a, present) ↦
            rw (steps_by_stored s true (some a) client (ap is_some deleted) present) (
              ap (λ w. stored w s.object.spec) (delete_world net cluster kind api t)
              ∙ ap (stored (kind.delete_object api t).1.world) (sym (spec_of_get s))
              ∙ served.delete_stores t)
      ]
