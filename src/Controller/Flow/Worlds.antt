-- ===== src/Controller/Flow/Worlds.antt =====
-- The world through the parts of a reconciliation: what sends nothing leaves it alone.
use mailu_operator.Common.{◌≡◌, refl, arith}
use mailu_operator.Common.Run.{Run}
use mailu_operator.Http.{Net}
use mailu_operator.Client.{Client}
use mailu_operator.Resource.{Object, Cluster}
use mailu_operator.Controller.{Outcome, Attempt, Ctx}
use mailu_operator.Controller.Flow
use mailu_operator.Controller.Flow.{Kind, unchanged, change}

module _ (net : Net) {S A : Type 0} (cluster : Cluster net.World S) (kind : Kind net S A) where
  pub guard_keeps :
      (s : Ctx net S)
      → ((Flow.guard_finalizer net cluster kind s).world ≡ s.world)
        × ((Flow.guard_finalizer net cluster kind s).object.spec ≡ s.object.spec)
        × ((Flow.guard_finalizer net cluster kind s).object.meta.deletion_timestamp
            ≡ s.object.meta.deletion_timestamp)
        × ((Flow.guard_finalizer net cluster kind s).reconciler ≡ s.reconciler)
  unfolding Flow.guard_finalizer
  guard_keeps s = (ground arith, ground arith, ground arith, ground arith)

  pub release_world :
      (o : Object S) (r : Outcome) (s : Ctx net S)
      → (Flow.release_finalizer net cluster kind o r s).world ≡ s.world
  unfolding Flow.release_finalizer
  release_world o r s = ground arith

  settle_world :
      (a : Attempt) (m : Run (Ctx net S) Outcome) (s : Ctx net S)
      → (m s).1.world ≡ s.world
      → (Flow.settle net cluster kind a m s).1.world ≡ s.world
  unfolding Flow.settle_at
  settle_world a m s h = ground arith

  pub create_world :
      (api : Client net) (s : Ctx net S)
      → (Flow.create net cluster kind api s).1.world ≡ (kind.create_object api s).1.world
  unfolding Flow.create
  create_world api s = let (a, t) = kind.create_object api s in settle_world a _ t refl

  pub delete_world :
      (api : Client net) (s : Ctx net S)
      → (Flow.delete net cluster kind api s).1.world ≡ (kind.delete_object api s).1.world
  unfolding Flow.delete
  delete_world api s = let (a, t) = kind.delete_object api s in settle_world a _ t refl

  pub change_world :
      (m : Run (Ctx net S) Attempt) (s : Ctx net S)
      → (Flow.carry_out net cluster kind (change m) s).1.world ≡ (m s).1.world
  unfolding Flow.carry_out Flow.updated
  change_world m s = let (a, t) = m s in settle_world a _ t refl

  pub unchanged_world :
      (s : Ctx net S) → (Flow.carry_out net cluster kind unchanged s).1.world ≡ s.world
  unfolding Flow.carry_out Flow.updated
  unchanged_world s = refl
