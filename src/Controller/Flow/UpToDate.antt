-- ===== src/Controller/Flow/UpToDate.antt =====
-- A reconciliation of a resource whose object is as it is wanted.
use mailu_operator.Common.{◌≡◌, true, false, none, some, arith}
use mailu_operator.Http.{Net}
use mailu_operator.Client.{Client}
use mailu_operator.Resource.{Cluster, finalizer_name}
use mailu_operator.Controller.{finished, Ctx, apply_patches}
use mailu_operator.Controller.Flow
use mailu_operator.Controller.Flow.{Kind, IsTame, unchanged}
use mailu_operator.Controller.Flow.Finalizers.{steps_of_client, patched}

module _ (net : Net) {S A : Type 0} (cluster : Cluster net.World S) (kind : Kind net S A) where
  pub guard_finalizer_kept :
      (s : Ctx net S)
      → cluster.contains_finalizer s.object.meta.finalizers finalizer_name ≡ true
      → Flow.guard_finalizer net cluster kind s ≡ s
  unfolding Flow.guard_finalizer
  guard_finalizer_kept s h = ground arith

  pub up_to_date :
      IsTame kind
      → (s : Ctx net S) (api : Client net) (a : A) → s.reconciler.api_client ≡ some api
      → s.object.meta.deletion_timestamp ≡ none
      → cluster.contains_finalizer s.object.meta.finalizers finalizer_name ≡ true
      → (kind.get_object api s).0 ≡ record { found = some a; retry = false; error = none }
      → kind.plan_update api s.object.spec a ≡ unchanged
      → let (r, t) = Flow.reconcile net cluster kind s in
        (r ≡ finished)
        × (t.object.spec ≡ s.object.spec)
        × (t.object.meta ≡ s.object.meta)
        × (t.world ≡ patched cluster s.object t.object (kind.get_object api s).1.world)
  unfolding Flow.reconcile Flow.decide_at Flow.update Flow.carry_out Flow.updated
      Flow.release_finalizer apply_patches
  up_to_date tame s api a h live kept found same =
      rw (guard_finalizer_kept s kept, steps_of_client net cluster kind s api h)
        (ground (arith, tame.get_keeps api s))
