-- ===== src/Controller/Flow/Served/Rounds.antt =====
-- How many reconciliations it takes until what Mailu stores is what the resource asks for.
use mailu_operator.Common.{
  ℕ, zero, suc, ◌≡◌, sym, ◌∙◌, ap, subst, Option, none, some, arith, true, Option-cases, inl, inr,
  repeat,
}
use mailu_operator.Http.{Net}
use mailu_operator.Client.{Client}
use mailu_operator.Resource.{Cluster, finalizer_name}
use mailu_operator.Controller.{Attempt, Lookup, Ctx}
use mailu_operator.Controller.Flow
use mailu_operator.Controller.Flow.{Kind, IsTame, unchanged}
use mailu_operator.Controller.Flow.Finalizers.{
  released, guard_finalizer_deleted, finalizers_deleted,
}
use mailu_operator.Controller.Flow.Served
use mailu_operator.Controller.Flow.Worlds.{guard_keeps}

module _ (net : Net) {S A : Type 0} (cluster : Cluster net.World S) (kind : Kind net S A)
    (tame : IsTame kind) (api : Client net) (stored : net.World → S → Option A)
    (IsReady : S → Type 0) (Made : S → A → Type 0)
    (served : Served.IsServed cluster kind api stored IsReady Made) where
  abbrev Settled : S → Option A → Type 0
  Settled = Served.Settled net cluster kind tame api stored IsReady Made served

  -- One reconciliation of a live resource, by what is stored.
  pub creates :
      (s : Ctx net S)
      → s.reconciler.api_client ≡ some api
      → s.object.meta.deletion_timestamp ≡ none
      → IsReady s.object.spec
      → stored s.world s.object.spec ≡ none
      → (a : A) × (stored (Flow.reconcile net cluster kind s).1.world s.object.spec ≡ some a)
        × Made s.object.spec a
  creates s client live ready absent =
      let g = Flow.guard_finalizer net cluster kind s in
      let (world, spec, deletion, reconciler) = guard_keeps net cluster kind s in
      let at : stored g.world g.object.spec ≡ stored s.world s.object.spec =
        λ i. stored (world i) (spec i) in
      let (a, h, made) =
        Served.absent_is_created net cluster kind tame api stored IsReady Made served g
          (ap (λ r. r.api_client) reconciler ∙ client) (deletion ∙ live)
          (subst IsReady (sym spec) ready) (at ∙ absent) in
      (
        a,
        Served.stored_after net cluster kind tame api stored IsReady Made served s s.object.spec
            ∙ ap (stored (Flow.steps net cluster kind g).1.world) (sym spec)
            ∙ h,
        subst (λ x. Made x a) spec made,
      )

  pub settles :
      (s : Ctx net S) (a : A)
      → s.reconciler.api_client ≡ some api
      → s.object.meta.deletion_timestamp ≡ none
      → IsReady s.object.spec
      → stored s.world s.object.spec ≡ some a
      → Settled s.object.spec (stored (Flow.reconcile net cluster kind s).1.world s.object.spec)
  settles s a client live ready present =
      let g = Flow.guard_finalizer net cluster kind s in
      let (world, spec, deletion, reconciler) = guard_keeps net cluster kind s in
      let at : stored g.world g.object.spec ≡ stored s.world s.object.spec =
        λ i. stored (world i) (spec i) in
      let (b, h, same) =
        Served.present-IsSettled net cluster kind tame api stored IsReady Made served g a
          (ap (λ r. r.api_client) reconciler ∙ client) (deletion ∙ live)
          (subst IsReady (sym spec) ready) (at ∙ present) in
      (
        b,
        Served.stored_after net cluster kind tame api stored IsReady Made served s s.object.spec
            ∙ ap (stored (Flow.steps net cluster kind g).1.world) (sym spec)
            ∙ h,
        ap (λ x. kind.plan_update api x b) (sym spec) ∙ same,
      )

  always_released :
      (l : Lookup A) (a : Attempt) → l.error ≡ none → a ≡ Served.done → released l a ≡ true
  always_released l a fine over = ground arith

  -- A reconciliation of a resource that is being deleted.
  pub empties :
      (s : Ctx net S) (d : ℕ)
      → s.reconciler.api_client ≡ some api
      → s.object.meta.deletion_timestamp ≡ some d
      → (stored (Flow.reconcile net cluster kind s).1.world s.object.spec ≡ none)
        × ((Flow.reconcile net cluster kind s).1.object.meta.finalizers
            ≡ cluster.remove_finalizer s.object.meta.finalizers finalizer_name)
  empties s d client deleted =
      let t = (kind.get_object api s).1 in
      (
        Served.stored_after net cluster kind tame api stored IsReady Made served s s.object.spec
            ∙ rw (guard_finalizer_deleted net cluster kind s d deleted) (
                Served.deleting_empties net cluster kind tame api stored IsReady Made served s d
                  client deleted),
        finalizers_deleted net cluster kind tame s api d client deleted
            ∙ rw (
                always_released (kind.get_object api s).0 (kind.delete_object api t).0
                  (ap (λ (l : Lookup A). l.error) (served.get_finds s)) (served.delete_works t)),
      )

  abbrev pub next : Ctx net S → Ctx net S
  next s = (Flow.reconcile net cluster kind s).1

  -- A live resource with the spec, and the client at hand.
  abbrev pub IsLive : S → Ctx net S → Type 0
  IsLive spec s =
      (s.reconciler.api_client ≡ some api)
      × (s.object.meta.deletion_timestamp ≡ none)
      × (s.object.spec ≡ spec)

  pub next-IsLive : (spec : S) (s : Ctx net S) → IsLive spec s → IsLive spec (next s)
  next-IsLive spec s (client, live, same) =
      let (a, b, c) = served.reconcile_keeps s client in (c, b ∙ live, a ∙ same)

  pub repeat-IsLive :
      (n : ℕ) (spec : S) (s : Ctx net S) → IsLive spec s → IsLive spec (repeat next n s)
  unfolding repeat
  repeat-IsLive zero spec s h = h
  repeat-IsLive (suc n) spec s h = repeat-IsLive n spec (next s) (next-IsLive spec s h)

  pub settles_at :
      (spec : S) (s : Ctx net S) (a : A)
      → IsLive spec s
      → IsReady spec
      → stored s.world spec ≡ some a
      → Settled spec (stored (next s).world spec)
  settles_at spec s a (client, live, same) ready present =
      subst (λ x. Settled x (stored (next s).world x)) same
        (settles s a client live (subst IsReady (sym same) ready)
          (ap (stored s.world) same ∙ present))

  pub creates_at :
      (spec : S) (s : Ctx net S)
      → IsLive spec s
      → IsReady spec
      → stored s.world spec ≡ none
      → (a : A) × (stored (next s).world spec ≡ some a) × Made spec a
  creates_at spec s (client, live, same) ready absent =
      subst (λ x. (a : A) × (stored (next s).world x ≡ some a) × Made x a) same
        (creates s client live (subst IsReady (sym same) ready) (ap (stored s.world) same ∙ absent))

  pub from_present :
      (n : ℕ) (spec : S) (s : Ctx net S) (a : A)
      → IsLive spec s
      → IsReady spec
      → stored s.world spec ≡ some a
      → Settled spec (stored (repeat next (suc n) s).world spec)
  unfolding repeat
  from_present zero spec s a h ready present = settles_at spec s a h ready present
  from_present (suc n) spec s a h ready present =
      let (b, kept, _) = settles_at spec s a h ready present in
      from_present n spec (next s) b (next-IsLive spec s h) ready kept

  -- After two reconciliations or more, whatever was stored before.
  pub settles_in_two :
      (n : ℕ) (spec : S) (s : Ctx net S)
      → IsLive spec s
      → IsReady spec
      → Settled spec (stored (repeat next (suc (suc n)) s).world spec)
  unfolding repeat
  settles_in_two n spec s h ready = elim (Option-cases (stored s.world spec)) [
    | inl absent ↦
        let (a, kept, _) = creates_at spec s h ready absent in
        from_present n spec (next s) a (next-IsLive spec s h) ready kept
    | inr (a, present) ↦ from_present (suc n) spec s a h ready present
  ]

  -- Where a creation stores what an update would, after one reconciliation or more.
  pub settles_in_one :
      ((spec : S) (a : A) → Made spec a → kind.plan_update api spec a ≡ unchanged)
      → (n : ℕ) (spec : S) (s : Ctx net S) → IsLive spec s
      → IsReady spec
      → Settled spec (stored (repeat next (suc n) s).world spec)
  unfolding repeat
  settles_in_one full n spec s h ready = elim (Option-cases (stored s.world spec)) [
    | inl absent ↦ after_creation n (creates_at spec s h ready absent)
    | inr (a, present) ↦ from_present n spec s a h ready present
  ]
    where
      after_creation :
          (n : ℕ)
          → (a : A) × (stored (next s).world spec ≡ some a) × Made spec a
          → Settled spec (stored (repeat next n (next s)).world spec)
      after_creation zero (a, kept, made) = (a, kept, full spec a made)
      after_creation (suc k) (a, kept, made) =
          from_present k spec (next s) a (next-IsLive spec s h) ready kept
