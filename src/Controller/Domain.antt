-- ===== src/Controller/Domain.antt =====
-- internal/controller/domain_controller.go
use mailu_operator.Common.{String, not, ◌&&◌, [], none, some, is_some, ◌==◌, if◌then◌else◌}
use mailu_operator.Common.Result.{Result, ok, err}
use mailu_operator.Common.Run.{Run, pure, get, ◌>>=◌, ◌>>◌}
use mailu_operator.Json.{deep_equal}
use mailu_operator.Http.{Net}
use mailu_operator.Client.{Client}
use mailu_operator.Client.Calls
use mailu_operator.Api.Domain
use mailu_operator.Api.Domain.{Domain}
use mailu_operator.Resource.{
  Object, Condition, ConditionStatus, condition_true, condition_false, Cluster, finalizer_name,
}
use mailu_operator.Resource.Specs.{DomainSpec}
use mailu_operator.Controller.{
  Outcome, requeue, finished, failed, Attempt, Lookup, Ctx, call, set_condition, set_finalizers,
  apply_patches, ensure_client,
}
use mailu_operator.Controller.Reply.{find_reply, create_reply, update_reply, delete_reply}

-- `DomainConditionTypeReady`
abbrev pub domain_condition_type_ready : String
domain_condition_type_ready = "DomainReady"

abbrev pub get_domain_ready_condition : ConditionStatus → String → String → Condition
get_domain_ready_condition status reason message = record {
  type = domain_condition_type_ready;
  status = status;
  reason = reason;
  message = message;
  last_transition_time = none;
}

-- The body of a creation. It has no alternatives.
abbrev pub created_domain : DomainSpec → Domain
created_domain spec = record {
  alternatives = none;
  comment = some spec.comment;
  max_aliases = some spec.max_aliases;
  max_quota_bytes = some spec.max_quota_bytes;
  max_users = some spec.max_users;
  name = spec.name;
  signup_enabled = some spec.signup_enabled;
}

-- `newDomain` of `update`.
abbrev pub new_domain : DomainSpec → Domain
new_domain spec = record {
  alternatives = some spec.alternatives;
  comment = some spec.comment;
  max_aliases = some spec.max_aliases;
  max_quota_bytes = some spec.max_quota_bytes;
  max_users = some spec.max_users;
  name = spec.name;
  signup_enabled = some spec.signup_enabled;
}

module _ (net : Net) (cluster : Cluster net.World DomainSpec) where
  abbrev pub Action : Type 0 → Type 0
  Action = Run (Ctx net DomainSpec)

  abbrev set_ready : ConditionStatus → String → String → Action Unit
  set_ready status reason message =
      set_condition cluster (get_domain_ready_condition status reason message)

  unfoldable pub get_domain : Client net → Action (Lookup Domain)
  get_domain api = do
    s ← get
    answer ← call (Calls.find_domain net api s.object.spec.name [])
    pure (find_reply net Domain.unmarshal answer)

  unfoldable pub create_domain : Client net → Action Attempt
  create_domain api = do
    s ← get
    answer ← call (Calls.create_domain net api (created_domain s.object.spec) [])
    pure (create_reply answer)

  unfoldable pub update_domain : Client net → Domain → Action Attempt
  update_domain api d = do
    answer ← call (Calls.update_domain net api d.name d [])
    pure (update_reply answer)

  unfoldable pub delete_domain : Client net → Action Attempt
  delete_domain api = do
    s ← get
    answer ← call (Calls.delete_domain net api s.object.spec.name [])
    pure (delete_reply answer)

  unfoldable pub create : Client net → Action Outcome
  create api = do
    attempt ← create_domain api
    elim attempt.error [
      | some e ↦ do
        set_ready condition_false "Error" e
        pure (if attempt.retry then requeue else failed e)
      | none ↦
          if attempt.retry
          then pure requeue
          else do set_ready condition_true "Created" "Domain created in MailU"; pure finished
    ]

  unfoldable pub update : Client net → Domain → Action Outcome
  update api found = do
    s ← get
    let wanted = new_domain s.object.spec
    if deep_equal (Domain.marshal wanted) (Domain.marshal found)
        then (do set_ready condition_true "Updated" "Domain updated in MailU"; pure finished)
        else do
          attempt ← update_domain api wanted
          elim attempt.error [
            | some e ↦ do
              set_ready condition_false "Error" e
              pure (if attempt.retry then requeue else failed e)
            | none ↦
                if attempt.retry
                then pure requeue
                else do set_ready condition_true "Updated" "Domain updated in MailU"; pure finished
          ]

  unfoldable pub delete : Client net → Action Outcome
  delete api = do
    attempt ← delete_domain api
    elim attempt.error [
      | some e ↦ do
        set_ready condition_false "Error" e
        pure (if attempt.retry then requeue else failed e)
      | none ↦ pure (if attempt.retry then requeue else finished)
    ]

  -- What `reconcile` does with what it found.
  unfoldable pub decide : Client net → Lookup Domain → Action Outcome
  unfolding create update delete
  decide api lookup s = elim lookup.error [
    | some e ↦
        (if lookup.retry
            then pure requeue
            else do set_ready condition_false "Error" e; pure finished)
          s
    | none ↦
        if is_some s.object.meta.deletion_timestamp
        then elim lookup.found [ none ↦ (finished, s) | some found ↦ delete api s ]
        else elim lookup.found [ none ↦ create api s | some found ↦ update api found s ]
  ]

  -- `reconcile`, behind the creation of the client.
  unfoldable pub proceed : Result (Client net) → Action Outcome
  unfolding decide
  proceed (err e) = pure (failed e)
  proceed (ok api) = do lookup ← get_domain api; decide api lookup

  unfoldable pub reconcile_steps : Action Outcome
  unfolding proceed
  reconcile_steps = do client ← ensure_client; proceed client

  -- `if domain.DeletionTimestamp == nil && !controllerutil.ContainsFinalizer(…) { … }`
  unfoldable pub guard_finalizer : Ctx net DomainSpec → Ctx net DomainSpec
  guard_finalizer s =
      let fs = s.object.meta.finalizers in
      if not (is_some s.object.meta.deletion_timestamp)
        && not (cluster.contains_finalizer fs finalizer_name)
      then set_finalizers (cluster.add_finalizer fs finalizer_name) s
      else s

  -- What `Reconcile` does with the result: an error is returned, and the finalizer goes once a deletion
  -- is not to be tried again.
  unfoldable pub release_finalizer :
      Object DomainSpec → Outcome → Ctx net DomainSpec → Ctx net DomainSpec
  release_finalizer original result s = elim result.error [
    | some e ↦ s
    | none ↦
        if is_some original.meta.deletion_timestamp && result.requeue_after == 0
        then set_finalizers (cluster.remove_finalizer s.object.meta.finalizers finalizer_name) s
        else s
  ]

  -- `Reconcile`
  unfoldable pub reconcile : Action Outcome
  unfolding guard_finalizer release_finalizer apply_patches
  reconcile s =
      let (result, t) = reconcile_steps (guard_finalizer s) in
      (result, apply_patches cluster s.object (release_finalizer s.object result t))
