-- ===== src/Controller/User.antt =====
-- internal/controller/user_controller.go
pub mod FromSpec
pub mod Password
use mailu_operator.Common.{
  ℕ, String, ◌<>◌, Bool, true, false, not, ◌&&◌, List, [], ◌∷◌, Option, none, some, is_some, ◌==◌,
  str_eq, if◌then◌else◌,
}
use mailu_operator.Common.Result.{Result, ok, err}
use mailu_operator.Common.Run.{Run, pure, get, ◌>>=◌, ◌>>◌}
use mailu_operator.Json.{deep_equal}
use mailu_operator.Http.{Net}
use mailu_operator.Client.{Client}
use mailu_operator.Client.Calls
use mailu_operator.Api.User
use mailu_operator.Api.User.{User}
use mailu_operator.Api.Dates.{Dates}
use mailu_operator.Controller.User.FromSpec.{user_email, user_from_spec}
use mailu_operator.Controller.User.Password.{Secrets, get_raw_user_password}
use mailu_operator.Resource.{
  Object, Condition, ConditionStatus, condition_true, condition_false, Cluster, finalizer_name,
}
use mailu_operator.Resource.Specs.{UserSpec}
use mailu_operator.Controller.{
  Outcome, requeue, finished, failed, Attempt, Lookup, Ctx, call, set_condition, set_finalizers,
  apply_patches, ensure_client,
}
use mailu_operator.Controller.Reply.{find_reply, create_reply, update_reply, delete_reply}

-- `UserConditionTypeReady`
abbrev pub user_condition_type_ready : String
user_condition_type_ready = "UserReady"

abbrev pub get_user_ready_condition : ConditionStatus → String → String → Condition
get_user_ready_condition status reason message = record {
  type = user_condition_type_ready;
  status = status;
  reason = reason;
  message = message;
  last_transition_time = none;
}

module _ (net : Net) (dates : Dates) (secrets : Secrets net.World)
    (cluster : Cluster net.World UserSpec) where
  abbrev pub Action : Type 0 → Type 0
  Action = Run (Ctx net UserSpec)

  abbrev set_ready : ConditionStatus → String → String → Action Unit
  set_ready status reason message =
      set_condition cluster (get_user_ready_condition status reason message)

  unfoldable pub get_user : Client net → Action (Lookup (User dates))
  get_user api = do
    s ← get
    answer ← call (Calls.find_user net api (user_email s.object.spec) [])
    pure (find_reply net (User.unmarshal dates) answer)

  -- `user.Spec.RawPassword, err = r.getRawUserPassword(ctx, user)`
  unfoldable pub store_password : Action (Option String)
  unfolding get_raw_user_password
  store_password s =
      let ((pass, error), w) = get_raw_user_password secrets s.object s.world in
      (
        error,
        record s {
          world = w;
          object = record s.object { spec = record s.object.spec { raw_password = pass } };
        },
      )

  -- A password is needed for a creation.
  unfoldable pub require_password : Action (Option String)
  unfolding store_password
  require_password = do
    s ← get
    if str_eq s.object.spec.raw_password "" then store_password else pure none

  unfoldable pub create_user : Client net → Action Attempt
  unfolding require_password
  create_user api = do
    missing ← require_password
    s ← get
    elim missing [
      | some e ↦ pure (record { retry = true; error = some e })
      | none ↦ elim (user_from_spec dates s.object.spec) [
        | err e ↦ pure (record { retry = false; error = some e })
        | ok u ↦ do answer ← call (Calls.create_user net dates api u []); pure (create_reply answer)
      ]
    ]

  unfoldable pub update_user : Client net → User dates → Action Attempt
  update_user api d = do
    answer ← call (Calls.update_user net dates api d.email d [])
    pure (update_reply answer)

  unfoldable pub delete_user : Client net → Action Attempt
  delete_user api = do
    s ← get
    answer ← call (Calls.delete_user net api (user_email s.object.spec) [])
    pure (delete_reply answer)

  unfoldable pub create : Client net → Action Outcome
  create api = do
    attempt ← create_user api
    elim attempt.error [
      | some e ↦ do
        set_ready condition_false "Error" e
        pure (if attempt.retry then requeue else failed e)
      | none ↦
          if attempt.retry
          then pure requeue
          else do set_ready condition_true "Created" "User created in MailU"; pure finished
    ]

  -- Some values that are not to be updated are reset on both sides.
  abbrev pub wanted_user : User dates → User dates
  wanted_user u = record u { raw_password = none }

  abbrev pub known_user : User dates → User dates
  known_user u = record u { password = none; quota_bytes_used = none }

  unfoldable pub update : Client net → User dates → Action Outcome
  update api found = do
    s ← get
    elim (user_from_spec dates s.object.spec) [
      | err e ↦ do set_ready condition_false "Error" e; pure (failed e)
      | ok u ↦
          if deep_equal (User.marshal dates (wanted_user u)) (User.marshal dates (known_user found))
          then (do set_ready condition_true "Updated" "User updated in MailU"; pure finished)
          else do
            attempt ← update_user api (wanted_user u)
            elim attempt.error [
              | some e ↦ do
                set_ready condition_false "Error" e
                pure (if attempt.retry then requeue else failed e)
              | none ↦
                  if attempt.retry
                  then pure requeue
                  else do set_ready condition_true "Updated" "User updated in MailU"; pure finished
            ]
    ]

  unfoldable pub delete : Client net → Action Outcome
  delete api = do
    attempt ← delete_user api
    elim attempt.error [
      | some e ↦ do
        set_ready condition_false "Error" e
        pure (if attempt.retry then requeue else failed e)
      | none ↦ pure (if attempt.retry then requeue else finished)
    ]

  -- What `reconcile` does with what it found.
  unfoldable pub decide : Client net → Lookup (User dates) → Action Outcome
  unfolding create update delete
  decide api lookup s = elim lookup.error [
    | some e ↦
        (if lookup.retry
            then pure requeue
            else do set_ready condition_false "Error" e; pure finished)
          s
    | none ↦
        if is_some s.object.meta.deletion_timestamp
        then elim lookup.found [ none ↦ (finished, s) | some found ↦ delete api s ]
        else elim lookup.found [ none ↦ create api s | some found ↦ update api found s ]
  ]

  -- `reconcile`, behind the creation of the client.
  unfoldable pub proceed : Result (Client net) → Action Outcome
  unfolding decide
  proceed (err e) = pure (failed e)
  proceed (ok api) = do lookup ← get_user api; decide api lookup

  unfoldable pub reconcile_steps : Action Outcome
  unfolding proceed
  reconcile_steps = do client ← ensure_client; proceed client

  -- `if user.DeletionTimestamp == nil && !controllerutil.ContainsFinalizer(…) { … }`
  unfoldable pub guard_finalizer : Ctx net UserSpec → Ctx net UserSpec
  guard_finalizer s =
      let fs = s.object.meta.finalizers in
      if not (is_some s.object.meta.deletion_timestamp)
        && not (cluster.contains_finalizer fs finalizer_name)
      then set_finalizers (cluster.add_finalizer fs finalizer_name) s
      else s

  -- What `Reconcile` does with the result: an error is returned, and the finalizer goes once a deletion
  -- is not to be tried again.
  unfoldable pub release_finalizer : Object UserSpec → Outcome → Ctx net UserSpec → Ctx net UserSpec
  release_finalizer original result s = elim result.error [
    | some e ↦ s
    | none ↦
        if is_some original.meta.deletion_timestamp && result.requeue_after == 0
        then set_finalizers (cluster.remove_finalizer s.object.meta.finalizers finalizer_name) s
        else s
  ]

  -- `Reconcile`
  unfoldable pub reconcile : Action Outcome
  unfolding guard_finalizer release_finalizer apply_patches
  reconcile s =
      let (result, t) = reconcile_steps (guard_finalizer s) in
      (result, apply_patches cluster s.object (release_finalizer s.object result t))
