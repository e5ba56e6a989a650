-- ===== src/Controller/Flow/Success.antt =====
-- What the conditions report when a reconciliation is finished.
use mailu_operator.Common.{
  String, ◌≡◌, refl, if◌then◌else◌, Bool, true, false, Option, none, some, is_some, arith,
}
use mailu_operator.Common.Run.{Run}
use mailu_operator.Http.{Net}
use mailu_operator.Client.{Client}
use mailu_operator.Resource.{Condition, condition_true, Cluster, IsLawful}
use mailu_operator.Controller.{Outcome, finished, Attempt, Lookup, Ctx}
use mailu_operator.Controller.Flow
use mailu_operator.Controller.Flow.{Kind, Plan, invalid, unchanged, change}
use mailu_operator.Controller.Flow.Status.{Reports}

module _ (net : Net) {S A : Type 0} (cluster : Cluster net.World S) (kind : Kind net S A)
    (lawful : IsLawful cluster) where
  -- A run that is finished leaves the condition `c`.
  abbrev Successes : Condition → Outcome × Ctx net S → Type 0
  Successes c (r, s) = r ≡ finished → Reports s.object.conditions c

  abbrev pub created : Condition
  created = Flow.ready net cluster kind condition_true "Created" kind.created_message

  abbrev pub updated : Condition
  updated = Flow.ready net cluster kind condition_true "Updated" kind.updated_message

  settle_success :
      (error : Option String) (again : Bool) (m : Run (Ctx net S) Outcome) (s : Ctx net S)
      (c : Condition)
      → Successes c (m s)
      → Successes c (Flow.settle_at net cluster kind error again m s)
  unfolding Flow.settle_at
  settle_success (some e) again m s c h q = absurd (ground arith)
  settle_success none true m s c h q = absurd (ground arith)
  settle_success none false m s c h q = h q

  updated_success : (s : Ctx net S) → Successes updated (Flow.updated net cluster kind s)
  unfolding Flow.updated
  updated_success s q = lawful.set_condition_found s.world s.object.conditions updated

  carry_out_success :
      (p : Plan (Run (Ctx net S) Attempt)) (s : Ctx net S)
      → Successes updated (Flow.carry_out net cluster kind p s)
  unfolding Flow.carry_out
  carry_out_success (invalid e) s q = absurd (ground arith)
  carry_out_success unchanged s q = updated_success s q
  carry_out_success (change m) s q =
      settle_success (m s).0.error (m s).0.retry (Flow.updated net cluster kind) (m s).1 updated
        (updated_success (m s).1) q

  create_success :
      (api : Client net) (s : Ctx net S) → Successes created (Flow.create net cluster kind api s)
  unfolding Flow.create
  create_success api s =
      let (a, t) = kind.create_object api s in
      settle_success a.error a.retry _ t created
        (λ _. lawful.set_condition_found t.world t.object.conditions created)

  -- By what was found: an object is updated, and otherwise one is created.
  abbrev pub success : Option A → Condition
  success none = created
  success (some a) = updated

  pub success_cases :
      (found : Option A) → success found ≡ (if is_some found then updated else created)
  success_cases none = refl
  success_cases (some a) = refl

  decide_at-success :
      (api : Client net) (again : Bool) (found : Option A) (s : Ctx net S)
      → Successes (success found) (Flow.decide_at net cluster kind api none again false found s)
  unfolding Flow.decide_at Flow.update
  decide_at-success api again none s = create_success api s
  decide_at-success api again (some a) s =
      carry_out_success (kind.plan_update api s.object.spec a) s

  by_parts :
      (api : Client net) (error : Option String) (again deleting : Bool) (found : Option A)
      (s : Ctx net S)
      → deleting ≡ false
      → error ≡ none
      → Successes (success found) (Flow.decide_at net cluster kind api error again deleting found s)
  by_parts api (some e) again deleting found s live fine = cc
  by_parts api none again true found s live fine = cc
  by_parts api none again false found s live fine = decide_at-success api again found s

  -- A live resource whose lookup made no error: once it is done with, it is Ready.
  pub decide-success :
      (api : Client net) (l : Lookup A) (s : Ctx net S)
      → s.object.meta.deletion_timestamp ≡ none
      → l.error ≡ none
      → (Flow.decide net cluster kind api l s).0 ≡ finished
      → Reports (Flow.decide net cluster kind api l s).1.object.conditions (success l.found)
  decide-success api l s live fine =
      by_parts api l.error l.retry (is_some s.object.meta.deletion_timestamp) l.found s
        (ground arith) fine
