-- ===== src/Memory/DeepCopy/Alias.antt =====
-- api/v1alpha1/zz_generated.deepcopy.go: the functions of Alias, AliasList, AliasSpec and AliasStatus.
use mailu_operator.Common.{Option}
use mailu_operator.Resource.{Condition}
use mailu_operator.Resource.Specs.{AliasSpecOf}
use mailu_operator.Memory.{Slice}
use mailu_operator.Memory.DeepCopy.{
  Copy, Status, Resource, ResourceList, copy_strings, deep_copy, deep_copy_object,
  resource_deep_copy_into, status_deep_copy_into, list_deep_copy_into,
}

-- `Alias`
abbrev pub Alias : Type 0 → Type 0
Alias M = Resource M (AliasSpecOf Slice)

-- `AliasList`
abbrev pub AliasList : Type 0 → Type 0
AliasList L = ResourceList L

-- `AliasStatus`
abbrev pub AliasStatus : Type 0
AliasStatus = Status

module _ {I : Type 0} where
  unfoldable pub alias_spec_deep_copy_into : Copy I (AliasSpecOf Slice)
  unfolding copy_strings
  alias_spec_deep_copy_into spec h =
      let (p, k) = copy_strings spec.destination h in (record spec { destination = p }, k)

  unfoldable pub alias_spec_deep_copy : Copy I (Option (AliasSpecOf Slice))
  unfolding alias_spec_deep_copy_into deep_copy
  alias_spec_deep_copy = deep_copy alias_spec_deep_copy_into

  module _ (copy_condition : Condition → Condition) where
    unfoldable pub alias_status_deep_copy_into : Copy I AliasStatus
    unfolding status_deep_copy_into
    alias_status_deep_copy_into = status_deep_copy_into copy_condition

    unfoldable pub alias_status_deep_copy : Copy I (Option AliasStatus)
    unfolding alias_status_deep_copy_into deep_copy
    alias_status_deep_copy = deep_copy alias_status_deep_copy_into

    module _ {M : Type 0} (copy_meta : Copy I M) where
      unfoldable pub alias_deep_copy_into : Copy I (Alias M)
      unfolding alias_spec_deep_copy_into alias_status_deep_copy_into resource_deep_copy_into
      alias_deep_copy_into =
          resource_deep_copy_into copy_meta alias_spec_deep_copy_into alias_status_deep_copy_into

      unfoldable pub alias_deep_copy : Copy I (Option (Alias M))
      unfolding alias_deep_copy_into deep_copy
      alias_deep_copy = deep_copy alias_deep_copy_into

      unfoldable pub alias_deep_copy_object : Copy I (Option (Alias M))
      unfolding alias_deep_copy deep_copy_object
      alias_deep_copy_object = deep_copy_object alias_deep_copy

-- A memory whose lists hold alias resources.
module _ {M L : Type 0} (copy_condition : Condition → Condition) (copy_meta : Copy (Alias M) M)
    (copy_list_meta : Copy (Alias M) L) where
  unfoldable pub alias_list_deep_copy_into : Copy (Alias M) (AliasList L)
  unfolding alias_deep_copy_into list_deep_copy_into
  alias_list_deep_copy_into =
      list_deep_copy_into copy_list_meta (alias_deep_copy_into copy_condition copy_meta)

  unfoldable pub alias_list_deep_copy : Copy (Alias M) (Option (AliasList L))
  unfolding alias_list_deep_copy_into deep_copy
  alias_list_deep_copy = deep_copy alias_list_deep_copy_into

  unfoldable pub alias_list_deep_copy_object : Copy (Alias M) (Option (AliasList L))
  unfolding alias_list_deep_copy deep_copy_object
  alias_list_deep_copy_object = deep_copy_object alias_list_deep_copy
