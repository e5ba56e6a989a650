-- ===== src/Controller.antt =====
-- What the three reconcilers of internal/controller share: their state, the values that their methods
-- return, and the creation of the API client.
pub mod Reply
pub mod Domain
pub mod Alias
pub mod User
pub mod Flow
pub mod Finalizer
pub mod Status
pub mod Results
pub mod Updates
pub mod Replies
pub mod Creation
pub mod Convergence
pub mod Sequel
pub mod Mailu
pub mod Authorized
use mailu_operator.Common.{
  ℕ, ◌*◌, ◌^◌, String, ◌<>◌, Bool, true, false, List, [], ◌∷◌, Option, none, some, is_some,
}
use mailu_operator.Common.Result.{Result, ok, err}
use mailu_operator.Common.Run.{Run, pure, get, ◌>>=◌}
use mailu_operator.Http.{Net, Request, Response, add_header}
use mailu_operator.Client.{Client, RequestEditorFn, new_client, with_request_editor_fn}
use mailu_operator.Client.Calls.{Call}
use mailu_operator.Resource.{Object, Condition, Cluster}

-- `ctrl.Result` and the error. Durations are in nanoseconds.
pub record Outcome : Type 0 where
  pub requeue_after : ℕ
  pub error : Option String

-- `5 * time.Second`
abbrev pub requeue_delay : ℕ
requeue_delay = 5 * 1000000000

-- `return ctrl.Result{RequeueAfter: 5 * time.Second}, nil`
abbrev pub requeue : Outcome
requeue = record { requeue_after = requeue_delay; error = none }

-- `return ctrl.Result{}, nil`
abbrev pub finished : Outcome
finished = record { requeue_after = 0; error = none }

-- `return ctrl.Result{}, err`
abbrev pub failed : String → Outcome
failed e = record { requeue_after = 0; error = some e }

-- The `(bool, error)` of the methods that create, update and delete.
pub record Attempt : Type 0 where
  pub retry : Bool
  pub error : Option String

-- The `(*T, bool, error)` of the methods that get.
pub record Lookup (A : Type 0) : Type 0 where
  pub found : Option A
  pub retry : Bool
  pub error : Option String

module _ (net : Net) where
  -- The fields of a reconciler that it uses.
  pub record Reconciler : Type 0 where
    pub api_url : String
    pub api_token : String
    pub api_client : Option (Client net)

  -- The state of one reconciliation: the resource is the one that Go passes by pointer.
  pub record Ctx (S : Type 0) : Type 0 where
    pub world : net.World
    pub reconciler : Reconciler
    pub object : Object S

-- `req.Header.Add("Authorization", "Bearer "+r.ApiToken)`
abbrev pub authorize : String → RequestEditorFn
authorize token req = ok (add_header "Authorization" ("Bearer " <> token) req)

module _ {net : Net} {S : Type 0} where
  -- An HTTP call of a method.
  abbrev pub call : Call net → Run (Ctx net S) (Result Response)
  call f s = let (answer, w) = f s.world in (answer, record s { world = w })

  -- `meta.SetStatusCondition(&resource.Status.Conditions, c)`
  abbrev pub set_condition : Cluster net.World S → Condition → Run (Ctx net S) (Unit {0})
  set_condition cluster c s = (
    tt,
    record s {
      object = record s.object {
        conditions = cluster.set_status_condition s.world s.object.conditions c;
      };
    },
  )

  abbrev pub set_finalizers : List String → Ctx net S → Ctx net S
  set_finalizers fs s = record s {
    object = record s.object { meta = record s.object.meta { finalizers = fs } };
  }

  -- The deferred function: a failed patch is logged, and changes nothing else.
  unfoldable pub apply_patches : Cluster net.World S → Object S → Ctx net S → Ctx net S
  apply_patches cluster original s =
      let (_, w) = cluster.patch s.object original s.world in
      let (_, w') = cluster.patch_status s.object original w in record s { world = w' }

  -- `if r.ApiClient == nil { … }`
  unfoldable pub ensure_client : Run (Ctx net S) (Result (Client net))
  unfolding with_request_editor_fn
  ensure_client s = elim s.reconciler.api_client [
    | some api ↦ (ok api, s)
    | none ↦
        elim (new_client net s.reconciler.api_url
          (with_request_editor_fn net (authorize s.reconciler.api_token) ∷ [])) [
            | err e ↦ (err e, s)
            | ok api ↦
                (ok api, record s { reconciler = record s.reconciler { api_client = some api } })
          ]
  ]
