-- ===== src/Controller/Flow/Untouched.antt =====
-- What every operation of a kind preserves of the world, a reconciliation preserves.
use mailu_operator.Common.{
  refl, subst, Bool, Option, String, is_some, ◌≡◌, sym, ap, ◌∙◌, true, false, none, some,
}
use mailu_operator.Common.Run.{Run}
use mailu_operator.Http.{Net}
use mailu_operator.Client.{Client}
use mailu_operator.Resource.{Object, Cluster}
use mailu_operator.Controller.{Outcome, Attempt, Ctx, apply_patches}
use mailu_operator.Controller.Flow
use mailu_operator.Controller.Flow.{Kind, IsTame, Plan, invalid, unchanged, change}
use mailu_operator.Controller.Flow.Finalizers.{patched, steps_of_client}
use mailu_operator.Controller.Flow.Worlds.{
  guard_keeps, create_world, delete_world, change_world, unchanged_world, release_world,
}

-- The operations on a resource with the spec `spec` preserve `I`, with the client `api`.
pub record IsInvariant {net : Net} {S A : Type 0} (cluster : Cluster net.World S)
    (kind : Kind net S A) (api : Client net) (I : net.World → Type 0) (spec : S) : Type 0 where
  pub get_keeps :
      (s : Ctx net S) → s.object.spec ≡ spec → I s.world → I (kind.get_object api s).1.world
  pub create_keeps :
      (s : Ctx net S) → s.object.spec ≡ spec → I s.world → I (kind.create_object api s).1.world
  pub delete_keeps :
      (s : Ctx net S) → s.object.spec ≡ spec → I s.world → I (kind.delete_object api s).1.world
  pub change_keeps :
      (a : A) (m : Run (Ctx net S) Attempt) (s : Ctx net S)
      → s.object.spec ≡ spec
      → kind.plan_update api spec a ≡ change m
      → I s.world
      → I (m s).1.world
  pub patches_keep :
      (o original : Object S) (w : net.World) → I w → I (patched cluster original o w)

-- The operations on a resource with the spec `spec` keep what `view` shows, with the client `api`.
pub record IsUntouched {net : Net} {S A V : Type 0} (cluster : Cluster net.World S)
    (kind : Kind net S A) (api : Client net) (view : net.World → V) (spec : S) : Type 0 where
  pub get_keeps :
      (s : Ctx net S) → s.object.spec ≡ spec → view (kind.get_object api s).1.world ≡ view s.world
  pub create_keeps :
      (s : Ctx net S)
      → s.object.spec ≡ spec
      → view (kind.create_object api s).1.world ≡ view s.world
  pub delete_keeps :
      (s : Ctx net S)
      → s.object.spec ≡ spec
      → view (kind.delete_object api s).1.world ≡ view s.world
  pub change_keeps :
      (a : A) (m : Run (Ctx net S) Attempt) (s : Ctx net S)
      → s.object.spec ≡ spec
      → kind.plan_update api spec a ≡ change m
      → view (m s).1.world ≡ view s.world
  pub patches_keep :
      (o original : Object S) (w : net.World) → view (patched cluster original o w) ≡ view w

module _ (net : Net) {S A : Type 0} (cluster : Cluster net.World S) (kind : Kind net S A)
    (tame : IsTame kind) (api : Client net) (I : net.World → Type 0) (spec : S)
    (invariant : IsInvariant cluster kind api I spec) where
  carry_out_holds :
      (a : A) (p : Plan (Run (Ctx net S) Attempt)) (s : Ctx net S)
      → s.object.spec ≡ spec
      → kind.plan_update api spec a ≡ p
      → I s.world
      → I (Flow.carry_out net cluster kind p s).1.world
  unfolding Flow.carry_out
  carry_out_holds a (invalid e) s h planned i = i
  carry_out_holds a unchanged s h planned i = subst I (sym (unchanged_world net cluster kind s)) i
  carry_out_holds a (change m) s h planned i =
      subst I (sym (change_world net cluster kind m s)) (invariant.change_keeps a m s h planned i)

  update_holds :
      (a : A) (s : Ctx net S)
      → s.object.spec ≡ spec
      → I s.world
      → I (Flow.update net cluster kind api a s).1.world
  unfolding Flow.update
  update_holds a s h =
      carry_out_holds a (kind.plan_update api s.object.spec a) s h
        (ap (λ x. kind.plan_update api x a) (sym h))

  decide_holds :
      (error : Option String) (again deleting : Bool) (found : Option A) (s : Ctx net S)
      → s.object.spec ≡ spec
      → I s.world
      → I (Flow.decide_at net cluster kind api error again deleting found s).1.world
  unfolding Flow.decide_at
  decide_holds (some e) true deleting found s h i = i
  decide_holds (some e) false deleting found s h i = i
  decide_holds none again true none s h i = i
  decide_holds none again true (some a) s h i =
      subst I (sym (delete_world net cluster kind api s)) (invariant.delete_keeps s h i)
  decide_holds none again false none s h i =
      subst I (sym (create_world net cluster kind api s)) (invariant.create_keeps s h i)
  decide_holds none again false (some a) s h i = update_holds a s h i

  pub reconcile_holds :
      (s : Ctx net S)
      → s.reconciler.api_client ≡ some api
      → s.object.spec ≡ spec
      → I s.world
      → I (Flow.reconcile net cluster kind s).1.world
  unfolding Flow.reconcile apply_patches
  reconcile_holds s client h i =
      let g = Flow.guard_finalizer net cluster kind s in
      let (world, same, _, reconciler) = guard_keeps net cluster kind s in
      let (l, t) = kind.get_object api g in
      let (x, u) = Flow.steps net cluster kind g in
      let v = Flow.release_finalizer net cluster kind s.object x u in
      let at_steps : I u.world =
        subst (λ (p : Outcome × Ctx net S). I p.1.world)
          (sym
            (steps_of_client net cluster kind g api (ap (λ r. r.api_client) reconciler ∙ client)))
          (decide_holds l.error l.retry (is_some t.object.meta.deletion_timestamp) l.found t
            (ap (λ o. o.spec) (tame.get_keeps api g) ∙ same ∙ h)
            (invariant.get_keeps g (same ∙ h) (subst I (sym world) i))) in
      invariant.patches_keep v.object s.object v.world
        (subst I (sym (release_world net cluster kind s.object x u)) at_steps)

module _ (net : Net) {S A V : Type 0} (cluster : Cluster net.World S) (kind : Kind net S A)
    (tame : IsTame kind) (api : Client net) (view : net.World → V) (spec : S)
    (untouched : IsUntouched cluster kind api view spec) where
  -- That the view is as it was is an invariant.
  pub reconcile_keeps :
      (s : Ctx net S)
      → s.reconciler.api_client ≡ some api
      → s.object.spec ≡ spec
      → view (Flow.reconcile net cluster kind s).1.world ≡ view s.world
  reconcile_keeps s client h =
      reconcile_holds net cluster kind tame api (λ w. view w ≡ view s.world) spec
        (record {
          get_keeps = λ t p i. untouched.get_keeps t p ∙ i;
          create_keeps = λ t p i. untouched.create_keeps t p ∙ i;
          delete_keeps = λ t p i. untouched.delete_keeps t p ∙ i;
          change_keeps = λ a m t p planned i. untouched.change_keeps a m t p planned ∙ i;
          patches_keep = λ o original w i. untouched.patches_keep o original w ∙ i;
        })
        s client h refl
