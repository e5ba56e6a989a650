-- ===== src/Resource.antt =====
-- The custom resources of api/v1alpha1, with what the controllers use of k8s.io/apimachinery and
-- sigs.k8s.io/controller-runtime on them.
pub mod Specs
use mailu_operator.Common.{
  ℕ, String, ◌≡◌, Bool, true, false, List, [], ◌∷◌, Option, none, some, str_eq, if◌then◌else◌,
}

pub data ConditionStatus : Type 0 where
  condition_true condition_false condition_unknown : ConditionStatus

-- `metav1.Condition`. `none` is the zero time.
pub record Condition : Type 0 where
  pub type : String
  pub status : ConditionStatus
  pub reason : String
  pub message : String
  pub last_transition_time : Option ℕ

-- `metav1.ObjectMeta`, as far as the controllers read or write it.
pub record ObjectMeta : Type 0 where
  pub name : String
  pub namespace : String
  pub deletion_timestamp : Option ℕ
  pub finalizers : List String

-- A `Domain`, `User` or `Alias` resource; its status holds the conditions and nothing else.
pub record Object (S : Type 0) : Type 0 where
  pub meta : ObjectMeta
  pub spec : S
  pub conditions : List Condition

-- `FinalizerName` of internal/controller/common.go
abbrev pub finalizer_name : String
finalizer_name = "operator.mailu.io/finalizer"

-- The cluster as the controllers call it, over the outside world `W` and a resource with spec `S`.
pub record Cluster (W S : Type 0) : Type 0 where
  -- `controllerutil`, on `GetFinalizers()`
  pub contains_finalizer : List String → String → Bool
  pub add_finalizer : List String → String → List String
  pub remove_finalizer : List String → String → List String
  -- `meta.SetStatusCondition`, which reads the clock
  pub set_status_condition : W → List Condition → Condition → List Condition
  -- `r.Patch(ctx, modified, client.MergeFrom(original))` and the same on `r.Status()`
  pub patch : Object S → Object S → W → Option String × W
  pub patch_status : Object S → Object S → W → Option String × W

-- The first condition of a type.
abbrev pub find_condition : String → List Condition → Option Condition
find_condition t [] = none
find_condition t (c ∷ cs) = if str_eq c.type t then some c else find_condition t cs

-- The same status, reason and message.
pub record SameReport (c d : Condition) : Type 0 where
  pub status : c.status ≡ d.status
  pub reason : c.reason ≡ d.reason
  pub message : c.message ≡ d.message

-- The documented behaviour of `controllerutil` and `meta.SetStatusCondition`.
pub record IsLawful {W S : Type 0} (cluster : Cluster W S) : Type 0 where
  pub contains-add :
      (fs : List String) (f : String)
      → cluster.contains_finalizer (cluster.add_finalizer fs f) f ≡ true
  pub set_condition_found :
      (w : W) (cs : List Condition) (c : Condition)
      → (d : Condition) × (find_condition c.type (cluster.set_status_condition w cs c) ≡ some d)
        × SameReport d c
