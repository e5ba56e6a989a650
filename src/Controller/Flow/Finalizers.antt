-- ===== src/Controller/Flow/Finalizers.antt =====
-- The finalizer of a resource through a reconciliation.
use mailu_operator.Common.{
  subst, ℕ, String, ◌≡◌, refl, sym, Bool, true, false, not, none, some, arith, ◌==◌, if◌then◌else◌,
}
use mailu_operator.Http.{Net}
use mailu_operator.Client.{Client}
use mailu_operator.Resource.{Object, Cluster, IsLawful, finalizer_name}
use mailu_operator.Controller.{
  Outcome, finished, failed, Attempt, Lookup, Ctx, ensure_client, apply_patches,
}
use mailu_operator.Controller.Flow
use mailu_operator.Controller.Flow.{Kind, IsTame}
use mailu_operator.Controller.Flow.Outcomes.{steps_meta}

-- When a deletion is over: the lookup failed for good, or found nothing, or the object was deleted.
abbrev pub released : {A : Type 0} → Lookup A → Attempt → Bool
released l a = elim l.error [
  | some e ↦ not l.retry
  | none ↦ elim l.found [
    | none ↦ true
    | some found ↦ elim a.error [ some e ↦ false | none ↦ not a.retry ]
  ]
]

pub apply_patches_object :
    {net : Net} {S : Type 0} (cluster : Cluster net.World S) (original : Object S) (s : Ctx net S)
    → (apply_patches cluster original s).object ≡ s.object
unfolding apply_patches
apply_patches_object cluster original s = refl

-- The world after the deferred function has patched `o`, which was `original`.
abbrev pub patched : {W S : Type 0} → Cluster W S → Object S → Object S → W → W
patched cluster original o w = (cluster.patch_status o original (cluster.patch o original w).1).1

module _ (net : Net) {S A : Type 0} (cluster : Cluster net.World S) (kind : Kind net S A) where
  abbrev has_finalizer : Ctx net S → Bool
  has_finalizer s = cluster.contains_finalizer s.object.meta.finalizers finalizer_name

  guard_finalizer_live :
      IsLawful cluster
      → (s : Ctx net S) → s.object.meta.deletion_timestamp ≡ none
      → has_finalizer (Flow.guard_finalizer net cluster kind s) ≡ true
  unfolding Flow.guard_finalizer
  guard_finalizer_live lawful s live =
      ground (arith, lawful.contains-add s.object.meta.finalizers finalizer_name)

  pub guard_finalizer_deleted :
      (s : Ctx net S) (d : ℕ)
      → s.object.meta.deletion_timestamp ≡ some d
      → Flow.guard_finalizer net cluster kind s ≡ s
  unfolding Flow.guard_finalizer
  guard_finalizer_deleted s d deleted = ground arith

  release_finalizer_live :
      (o : Object S) (r : Outcome) (s : Ctx net S)
      → o.meta.deletion_timestamp ≡ none
      → Flow.release_finalizer net cluster kind o r s ≡ s
  unfolding Flow.release_finalizer
  release_finalizer_live o r s live = ground arith

  pub finalizer_live :
      IsTame kind
      → IsLawful cluster
      → (s : Ctx net S) → s.object.meta.deletion_timestamp ≡ none
      → has_finalizer (Flow.reconcile net cluster kind s).1 ≡ true
  unfolding Flow.reconcile apply_patches
  finalizer_live tame lawful s live =
      let g = Flow.guard_finalizer net cluster kind s in
      let (r, t) = Flow.steps net cluster kind g in
      rw (release_finalizer_live s.object r t live) (
        subst (λ m. cluster.contains_finalizer m.finalizers finalizer_name ≡ true)
          (sym (steps_meta net cluster kind tame g)) (guard_finalizer_live lawful s live))

  -- With a client at hand, the steps are the lookup and what follows it.
  pub steps_of_client :
      (s : Ctx net S) (api : Client net)
      → s.reconciler.api_client ≡ some api
      → Flow.steps net cluster kind s
        ≡ Flow.decide net cluster kind api (kind.get_object api s).0 (kind.get_object api s).1
  unfolding Flow.steps ensure_client Flow.proceed
  steps_of_client s api h = ground arith

  abbrev lets_go : Outcome → Bool
  lets_go r = elim r.error [ some e ↦ false | none ↦ r.requeue_after == 0 ]

  decide_deleted :
      (s : Ctx net S) (api : Client net) (l : Lookup A) (d : ℕ)
      → s.object.meta.deletion_timestamp ≡ some d
      → lets_go (Flow.decide net cluster kind api l s).0 ≡ released l (kind.delete_object api s).0
  unfolding Flow.decide_at Flow.delete
  decide_deleted s api l d h = ground arith

  release_finalizer_deleted :
      (o : Object S) (r : Outcome) (s : Ctx net S) (d : ℕ)
      → o.meta.deletion_timestamp ≡ some d
      → (Flow.release_finalizer net cluster kind o r s).object.meta.finalizers ≡ (
          if lets_go r
          then cluster.remove_finalizer s.object.meta.finalizers finalizer_name
          else s.object.meta.finalizers)
  unfolding Flow.release_finalizer
  release_finalizer_deleted o r s d h = ground arith

  pub finalizers_deleted :
      IsTame kind
      → (s : Ctx net S) (api : Client net) (d : ℕ) → s.reconciler.api_client ≡ some api
      → s.object.meta.deletion_timestamp ≡ some d
      → let (l, t) = kind.get_object api s in
        (Flow.reconcile net cluster kind s).1.object.meta.finalizers ≡ (
          if released l (kind.delete_object api t).0
          then cluster.remove_finalizer s.object.meta.finalizers finalizer_name
          else s.object.meta.finalizers)
  unfolding Flow.reconcile apply_patches
  finalizers_deleted tame s api d h deleted =
      let (l, t) = kind.get_object api s in
      let (r, u) = Flow.steps net cluster kind s in
      rw (
        guard_finalizer_deleted s d deleted,
        release_finalizer_deleted s.object r u d deleted,
        steps_meta net cluster kind tame s,
        steps_of_client s api h,
        decide_deleted t api l d (rw (tame.get_keeps api s) deleted),
      )

  -- A lookup that fails for good ends the deletion: nothing more is sent, and the finalizer goes.
  pub deletion_abandoned :
      IsTame kind
      → (s : Ctx net S) (api : Client net) (d : ℕ) (e : String) → s.reconciler.api_client ≡ some api
      → s.object.meta.deletion_timestamp ≡ some d
      → (kind.get_object api s).0 ≡ record { found = none; retry = false; error = some e }
      → let (r, t) = Flow.reconcile net cluster kind s in
        (r ≡ finished)
        × (t.object.meta.finalizers
            ≡ cluster.remove_finalizer s.object.meta.finalizers finalizer_name)
        × (t.world ≡ patched cluster s.object t.object (kind.get_object api s).1.world)
  unfolding Flow.reconcile apply_patches Flow.decide_at Flow.release_finalizer
  deletion_abandoned tame s api d e h deleted failed =
      rw (guard_finalizer_deleted s d deleted, steps_of_client s api h)
        (ground (arith, tame.get_keeps api s))
