-- ===== src/Controller/Flow/Outcomes.antt =====
-- What the steps of a reconciliation leave alone, and the results that they can have.
use mailu_operator.Common.{◌≡◌, refl, ◌∙◌, ap, arith, Option-cases, inl, inr}
use mailu_operator.Common.Result.{Result, ok, err, Result-cases}
use mailu_operator.Common.Run.{Run}
use mailu_operator.Http.{Net}
use mailu_operator.Client.{Client, new_client}
use mailu_operator.Resource.{Cluster}
use mailu_operator.Controller.{failed, Attempt, Lookup, Ctx, ensure_client}
use mailu_operator.Controller.Flow
use mailu_operator.Controller.Flow.{Kind, IsTame, Plan, invalid, unchanged, change, settle}

pub ensure_client_keeps :
    {net : Net} {S : Type 0} (s : Ctx net S) → (ensure_client s).1.object ≡ s.object
unfolding ensure_client
ensure_client_keeps s = ground arith

pub ensure_client_world :
    {net : Net} {S : Type 0} (s : Ctx net S) → (ensure_client s).1.world ≡ s.world
unfolding ensure_client
ensure_client_world s = ground arith

-- The client is there after the first step: its creation does not fail.
pub ensure_client_ok :
    {net : Net} {S : Type 0} (s : Ctx net S) → (api : Client net) × ((ensure_client s).0 ≡ ok api)
unfolding ensure_client new_client
ensure_client_ok s = elim (Result-cases (ensure_client s).0) [
  | inl (e, failed) ↦ absurd (ground arith)
  | inr created ↦ created
]

module _ (net : Net) {S A : Type 0} (cluster : Cluster net.World S) (kind : Kind net S A)
    (tame : IsTame kind) where
  create_meta :
      (api : Client net) (s : Ctx net S)
      → (Flow.create net cluster kind api s).1.object.meta ≡ s.object.meta
  unfolding Flow.create
  create_meta api s = ground (arith, tame.create_keeps_meta api s)

  delete_meta :
      (api : Client net) (s : Ctx net S)
      → (Flow.delete net cluster kind api s).1.object.meta ≡ s.object.meta
  unfolding Flow.delete
  delete_meta api s = ground (arith, tame.delete_keeps api s)

  carry_out_meta :
      (p : Plan (Run (Ctx net S) Attempt)) (s : Ctx net S)
      → ((m : Run (Ctx net S) Attempt) → p ≡ change m → (m s).1.object ≡ s.object)
      → (Flow.carry_out net cluster kind p s).1.object.meta ≡ s.object.meta
  unfolding Flow.carry_out
  carry_out_meta (invalid e) s h = refl
  carry_out_meta unchanged s h = refl
  carry_out_meta (change m) s h = ground (arith, h m refl)

  update_meta :
      (api : Client net) (a : A) (s : Ctx net S)
      → (Flow.update net cluster kind api a s).1.object.meta ≡ s.object.meta
  unfolding Flow.update
  update_meta api a s =
      carry_out_meta (kind.plan_update api s.object.spec a) s λ m h. tame.change_keeps api _ a m s h

  decide_meta :
      (api : Client net) (l : Lookup A) (s : Ctx net S)
      → (Flow.decide net cluster kind api l s).1.object.meta ≡ s.object.meta
  unfolding Flow.decide_at
  decide_meta api l s = elim (Option-cases l.found) [
    | inl absent ↦ ground (arith, create_meta api s)
    | inr (a, found) ↦ ground (arith, delete_meta api s, update_meta api a s)
  ]

  pub proceed_meta :
      (r : Result (Client net)) (s : Ctx net S)
      → (Flow.proceed net cluster kind r s).1.object.meta ≡ s.object.meta
  unfolding Flow.proceed
  proceed_meta (err e) s = refl
  proceed_meta (ok api) s =
      decide_meta api (kind.get_object api s).0 (kind.get_object api s).1
      ∙ ap (λ o. o.meta) (tame.get_keeps api s)

  -- The steps leave the metadata of the resource alone.
  pub steps_meta : (s : Ctx net S) → (Flow.steps net cluster kind s).1.object.meta ≡ s.object.meta
  unfolding Flow.steps
  steps_meta s =
      proceed_meta (ensure_client s).0 (ensure_client s).1
      ∙ ap (λ o. o.meta) (ensure_client_keeps s)
