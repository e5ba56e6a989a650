-- ===== src/Controller/Alias.antt =====
-- internal/controller/alias_controller.go
use mailu_operator.Common.{String, ◌<>◌, not, ◌&&◌, [], none, some, is_some, ◌==◌, if◌then◌else◌}
use mailu_operator.Common.Result.{Result, ok, err}
use mailu_operator.Common.Run.{Run, pure, get, ◌>>=◌, ◌>>◌}
use mailu_operator.Json.{deep_equal}
use mailu_operator.Http.{Net}
use mailu_operator.Client.{Client}
use mailu_operator.Client.Calls
use mailu_operator.Api.Alias
use mailu_operator.Api.Alias.{Alias}
use mailu_operator.Resource.{
  Object, Condition, ConditionStatus, condition_true, condition_false, Cluster, finalizer_name,
}
use mailu_operator.Resource.Specs.{AliasSpec}
use mailu_operator.Controller.{
  Outcome, requeue, finished, failed, Attempt, Lookup, Ctx, call, set_condition, set_finalizers,
  apply_patches, ensure_client,
}
use mailu_operator.Controller.Reply.{find_reply, create_reply, update_reply, delete_reply}

-- `AliasConditionTypeReady`
abbrev pub alias_condition_type_ready : String
alias_condition_type_ready = "AliasReady"

abbrev pub get_alias_ready_condition : ConditionStatus → String → String → Condition
get_alias_ready_condition status reason message = record {
  type = alias_condition_type_ready;
  status = status;
  reason = reason;
  message = message;
  last_transition_time = none;
}

-- `alias.Spec.Name+"@"+alias.Spec.Domain`
abbrev pub alias_email : AliasSpec → String
alias_email spec = spec.name <> "@" <> spec.domain

-- The body of a creation.
abbrev pub created_alias : AliasSpec → Alias
created_alias spec = record {
  email = alias_email spec;
  comment = some spec.comment;
  destination = some spec.destination;
  wildcard = some spec.wildcard;
}

-- `newAlias` of `update`.
abbrev pub new_alias : AliasSpec → Alias
new_alias spec = record {
  email = alias_email spec;
  comment = some spec.comment;
  destination = some spec.destination;
  wildcard = some spec.wildcard;
}

module _ (net : Net) (cluster : Cluster net.World AliasSpec) where
  abbrev pub Action : Type 0 → Type 0
  Action = Run (Ctx net AliasSpec)

  abbrev set_ready : ConditionStatus → String → String → Action Unit
  set_ready status reason message =
      set_condition cluster (get_alias_ready_condition status reason message)

  unfoldable pub get_alias : Client net → Action (Lookup Alias)
  get_alias api = do
    s ← get
    answer ← call (Calls.find_alias net api (alias_email s.object.spec) [])
    pure (find_reply net Alias.unmarshal answer)

  unfoldable pub create_alias : Client net → Action Attempt
  create_alias api = do
    s ← get
    answer ← call (Calls.create_alias net api (created_alias s.object.spec) [])
    pure (create_reply answer)

  unfoldable pub update_alias : Client net → Alias → Action Attempt
  update_alias api d = do
    answer ← call (Calls.update_alias net api d.email d [])
    pure (update_reply answer)

  unfoldable pub delete_alias : Client net → Action Attempt
  delete_alias api = do
    s ← get
    answer ← call (Calls.delete_alias net api (alias_email s.object.spec) [])
    pure (delete_reply answer)

  unfoldable pub create : Client net → Action Outcome
  create api = do
    attempt ← create_alias api
    elim attempt.error [
      | some e ↦ do
        set_ready condition_false "Error" e
        pure (if attempt.retry then requeue else failed e)
      | none ↦
          if attempt.retry
          then pure requeue
          else do set_ready condition_true "Created" "Alias created in MailU"; pure finished
    ]

  unfoldable pub update : Client net → Alias → Action Outcome
  update api found = do
    s ← get
    let wanted = new_alias s.object.spec
    if deep_equal (Alias.marshal wanted) (Alias.marshal found)
        then (do set_ready condition_true "Updated" "Alias updated in MailU"; pure finished)
        else do
          attempt ← update_alias api wanted
          elim attempt.error [
            | some e ↦ do
              set_ready condition_false "Error" e
              pure (if attempt.retry then requeue else failed e)
            | none ↦
                if attempt.retry
                then pure requeue
                else do set_ready condition_true "Updated" "Alias updated in MailU"; pure finished
          ]

  unfoldable pub delete : Client net → Action Outcome
  delete api = do
    attempt ← delete_alias api
    elim attempt.error [
      | some e ↦ do
        set_ready condition_false "Error" e
        pure (if attempt.retry then requeue else failed e)
      | none ↦ pure (if attempt.retry then requeue else finished)
    ]

  -- What `reconcile` does with what it found.
  unfoldable pub decide : Client net → Lookup Alias → Action Outcome
  unfolding create update delete
  decide api lookup s = elim lookup.error [
    | some e ↦
        (if lookup.retry
            then pure requeue
            else do set_ready condition_false "Error" e; pure finished)
          s
    | none ↦
        if is_some s.object.meta.deletion_timestamp
        then elim lookup.found [ none ↦ (finished, s) | some found ↦ delete api s ]
        else elim lookup.found [ none ↦ create api s | some found ↦ update api found s ]
  ]

  -- `reconcile`, behind the creation of the client.
  unfoldable pub proceed : Result (Client net) → Action Outcome
  unfolding decide
  proceed (err e) = pure (failed e)
  proceed (ok api) = do lookup ← get_alias api; decide api lookup

  unfoldable pub reconcile_steps : Action Outcome
  unfolding proceed
  reconcile_steps = do client ← ensure_client; proceed client

  -- `if alias.DeletionTimestamp == nil && !controllerutil.ContainsFinalizer(…) { … }`
  unfoldable pub guard_finalizer : Ctx net AliasSpec → Ctx net AliasSpec
  guard_finalizer s =
      let fs = s.object.meta.finalizers in
      if not (is_some s.object.meta.deletion_timestamp)
        && not (cluster.contains_finalizer fs finalizer_name)
      then set_finalizers (cluster.add_finalizer fs finalizer_name) s
      else s

  -- What `Reconcile` does with the result: an error is returned, and the finalizer goes once a deletion
  -- is not to be tried again.
  unfoldable pub release_finalizer :
      Object AliasSpec → Outcome → Ctx net AliasSpec → Ctx net AliasSpec
  release_finalizer original result s = elim result.error [
    | some e ↦ s
    | none ↦
        if is_some original.meta.deletion_timestamp && result.requeue_after == 0
        then set_finalizers (cluster.remove_finalizer s.object.meta.finalizers finalizer_name) s
        else s
  ]

  -- `Reconcile`
  unfoldable pub reconcile : Action Outcome
  unfolding guard_finalizer release_finalizer apply_patches
  reconcile s =
      let (result, t) = reconcile_steps (guard_finalizer s) in
      (result, apply_patches cluster s.object (release_finalizer s.object result t))
