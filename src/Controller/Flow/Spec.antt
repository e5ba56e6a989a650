-- ===== src/Controller/Flow/Spec.antt =====
-- The spec of a resource through the steps of a reconciliation: only a creation can change it.
use mailu_operator.Common.{◌≡◌, true, false, none, some, arith}
use mailu_operator.Common.Run.{Run}
use mailu_operator.Http.{Net}
use mailu_operator.Client.{Client}
use mailu_operator.Resource.{Object, Cluster, finalizer_name}
use mailu_operator.Controller.{Outcome, Attempt, Ctx, apply_patches}
use mailu_operator.Controller.Flow
use mailu_operator.Controller.Flow.{Kind, IsTame}
use mailu_operator.Controller.Flow.Finalizers.{steps_of_client}
use mailu_operator.Controller.Flow.UpToDate.{guard_finalizer_kept}

module _ (net : Net) {S A : Type 0} (cluster : Cluster net.World S) (kind : Kind net S A) where
  settle_spec :
      (a : Attempt) (m : Run (Ctx net S) Outcome) (s : Ctx net S)
      → (m s).1.object.spec ≡ s.object.spec
      → (Flow.settle net cluster kind a m s).1.object.spec ≡ s.object.spec
  unfolding Flow.settle_at
  settle_spec a m s h = ground arith

  release_finalizer_spec :
      (o : Object S) (r : Outcome) (s : Ctx net S)
      → (Flow.release_finalizer net cluster kind o r s).object.spec ≡ s.object.spec
  unfolding Flow.release_finalizer
  release_finalizer_spec o r s = ground arith

  create_spec :
      (api : Client net) (s : Ctx net S)
      → (Flow.create net cluster kind api s).1.object.spec
        ≡ (kind.create_object api s).1.object.spec
  unfolding Flow.create
  create_spec api s = let (a, t) = kind.create_object api s in settle_spec a _ t (ground arith)

  -- A resource that is created is patched with the spec that the creation leaves.
  pub created_spec :
      IsTame kind
      → (s : Ctx net S) (api : Client net) → s.reconciler.api_client ≡ some api
      → s.object.meta.deletion_timestamp ≡ none
      → cluster.contains_finalizer s.object.meta.finalizers finalizer_name ≡ true
      → (kind.get_object api s).0 ≡ record { found = none; retry = false; error = none }
      → (Flow.reconcile net cluster kind s).1.object.spec
        ≡ (kind.create_object api (kind.get_object api s).1).1.object.spec
  unfolding Flow.reconcile apply_patches Flow.decide_at
  created_spec tame s api h live kept absent =
      let t = (kind.get_object api s).1 in
      let (r, u) = Flow.steps net cluster kind s in
      rw
        (
          guard_finalizer_kept net cluster kind s kept,
          release_finalizer_spec s.object r u,
          steps_of_client net cluster kind s api h,
        )
        (ground (arith, tame.get_keeps api s, create_spec api t))
