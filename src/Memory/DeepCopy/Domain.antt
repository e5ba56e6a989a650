-- ===== src/Memory/DeepCopy/Domain.antt =====
-- api/v1alpha1/zz_generated.deepcopy.go: the functions of Domain, DomainList, DomainSpec and DomainStatus.
use mailu_operator.Common.{Option}
use mailu_operator.Resource.{Condition}
use mailu_operator.Resource.Specs.{DomainSpecOf}
use mailu_operator.Memory.{Slice}
use mailu_operator.Memory.DeepCopy.{
  Copy, Status, Resource, ResourceList, copy_strings, deep_copy, deep_copy_object,
  resource_deep_copy_into, status_deep_copy_into, list_deep_copy_into,
}

-- `Domain`
abbrev pub Domain : Type 0 → Type 0
Domain M = Resource M (DomainSpecOf Slice)

-- `DomainList`
abbrev pub DomainList : Type 0 → Type 0
DomainList L = ResourceList L

-- `DomainStatus`
abbrev pub DomainStatus : Type 0
DomainStatus = Status

module _ {I : Type 0} where
  unfoldable pub domain_spec_deep_copy_into : Copy I (DomainSpecOf Slice)
  unfolding copy_strings
  domain_spec_deep_copy_into spec h =
      let (p, k) = copy_strings spec.alternatives h in (record spec { alternatives = p }, k)

  unfoldable pub domain_spec_deep_copy : Copy I (Option (DomainSpecOf Slice))
  unfolding domain_spec_deep_copy_into deep_copy
  domain_spec_deep_copy = deep_copy domain_spec_deep_copy_into

  module _ (copy_condition : Condition → Condition) where
    unfoldable pub domain_status_deep_copy_into : Copy I DomainStatus
    unfolding status_deep_copy_into
    domain_status_deep_copy_into = status_deep_copy_into copy_condition

    unfoldable pub domain_status_deep_copy : Copy I (Option DomainStatus)
    unfolding domain_status_deep_copy_into deep_copy
    domain_status_deep_copy = deep_copy domain_status_deep_copy_into

    module _ {M : Type 0} (copy_meta : Copy I M) where
      unfoldable pub domain_deep_copy_into : Copy I (Domain M)
      unfolding domain_spec_deep_copy_into domain_status_deep_copy_into resource_deep_copy_into
      domain_deep_copy_into =
          resource_deep_copy_into copy_meta domain_spec_deep_copy_into domain_status_deep_copy_into

      unfoldable pub domain_deep_copy : Copy I (Option (Domain M))
      unfolding domain_deep_copy_into deep_copy
      domain_deep_copy = deep_copy domain_deep_copy_into

      unfoldable pub domain_deep_copy_object : Copy I (Option (Domain M))
      unfolding domain_deep_copy deep_copy_object
      domain_deep_copy_object = deep_copy_object domain_deep_copy

-- A memory whose lists hold domain resources.
module _ {M L : Type 0} (copy_condition : Condition → Condition) (copy_meta : Copy (Domain M) M)
    (copy_list_meta : Copy (Domain M) L) where
  unfoldable pub domain_list_deep_copy_into : Copy (Domain M) (DomainList L)
  unfolding domain_deep_copy_into list_deep_copy_into
  domain_list_deep_copy_into =
      list_deep_copy_into copy_list_meta (domain_deep_copy_into copy_condition copy_meta)

  unfoldable pub domain_list_deep_copy : Copy (Domain M) (Option (DomainList L))
  unfolding domain_list_deep_copy_into deep_copy
  domain_list_deep_copy = deep_copy domain_list_deep_copy_into

  unfoldable pub domain_list_deep_copy_object : Copy (Domain M) (Option (DomainList L))
  unfolding domain_list_deep_copy deep_copy_object
  domain_list_deep_copy_object = deep_copy_object domain_list_deep_copy
