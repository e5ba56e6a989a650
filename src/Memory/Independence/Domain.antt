-- ===== src/Memory/Independence/Domain.antt =====
-- The copies of Domain and DomainList that api/v1alpha1/zz_generated.deepcopy.go makes share no memory with
-- their originals.
use mailu_operator.Common.{◌≡◌, some}
use mailu_operator.Resource.{Condition}
use mailu_operator.Resource.Specs.{DomainSpec}
use mailu_operator.Memory.{Heap, Agree, IsWithin, Copies}
use mailu_operator.Memory.DeepCopy.{Copy}
use mailu_operator.Memory.DeepCopy.Domain.{
  Domain, DomainList, domain_spec_deep_copy_into, domain_deep_copy_into, domain_deep_copy_object,
  domain_list_deep_copy_into, domain_list_deep_copy_object,
}
use mailu_operator.Memory.Parts.{read_domain_spec, domain_spec-Copies}
use mailu_operator.Memory.Lists.{ListView, IsTaken, read_list, list_deep_copy_into-IsCopied}
use mailu_operator.Memory.Independence.{View, read_resource, resource-Copies, independent}

module _ {I M V : Type 0} (read_meta : Heap I → M → V) where
  abbrev pub read_domain : Heap I → Domain M → View V DomainSpec
  read_domain = read_resource read_meta read_domain_spec

module _ {M L V W : Type 0} (read_meta : Heap (Domain M) → M → V)
    (read_list_meta : Heap (Domain M) → L → W) where
  abbrev pub read_domain_list : Heap (Domain M) → DomainList L → ListView W (View V DomainSpec)
  read_domain_list = read_list (read_domain read_meta) read_list_meta

module _ {I M V : Type 0} (copy_condition : Condition → Condition)
    (same : (c : Condition) → copy_condition c ≡ c) (copy_meta : Copy I M)
    (read_meta : Heap I → M → V) (meta-Copies : Copies read_meta copy_meta) where
  pub domain-Copies :
      Copies (read_domain read_meta) (domain_deep_copy_into copy_condition copy_meta)
  unfolding domain_deep_copy_into
  domain-Copies =
      resource-Copies copy_condition same copy_meta read_meta meta-Copies domain_spec_deep_copy_into
        read_domain_spec domain_spec-Copies

  -- Take a domain in memory `h` that rests on arrays that are taken, and its copy by `DeepCopyObject`. If
  -- the metadata is copied without sharing, and conditions to equal ones: in every memory where the new
  -- arrays are as they were, whatever was written to the old ones, the copy reads as the original did; and
  -- in every memory where the old arrays are as they were, whatever was written to the new ones, so does
  -- the original.
  pub domain_copy_independent :
      (x : Domain M) (h g l : Heap I)
      → IsWithin (read_domain read_meta) 0 h.next h x
      → let k = (domain_deep_copy_into copy_condition copy_meta x h).1 in
        Agree h.next k.next k g
        → Agree 0 h.next k l
        → (y : Domain M) × ((domain_deep_copy_object copy_condition copy_meta (some x) h).0
            ≡ some y)
          × (read_domain read_meta g y ≡ read_domain read_meta h x)
          × (read_domain read_meta l x ≡ read_domain read_meta h x)
  unfolding domain_deep_copy_object
  domain_copy_independent x h g l within =
      independent (read_domain read_meta) (domain_deep_copy_into copy_condition copy_meta) x h g l
        within (domain-Copies x h within)

module _ {M L V W : Type 0} (copy_condition : Condition → Condition)
    (same : (c : Condition) → copy_condition c ≡ c) (copy_meta : Copy (Domain M) M)
    (read_meta : Heap (Domain M) → M → V) (meta-Copies : Copies read_meta copy_meta)
    (copy_list_meta : Copy (Domain M) L) (read_list_meta : Heap (Domain M) → L → W)
    (list_meta-Copies : Copies read_list_meta copy_list_meta) where
  -- Take a list of domains in memory `h`, with its array taken, that rests on arrays that are taken,
  -- and its copy by `DeepCopyObject`. If metadata is copied without sharing, and conditions to equal ones: in
  -- every memory where the new arrays are as they were, the copy shows the items that the original
  -- showed; and in every memory where the old arrays are as they were, so does the original.
  pub domain_list_copy_independent :
      (x : DomainList L) (h g l : Heap (Domain M))
      → IsTaken h.next x.items
      → IsWithin (read_domain_list read_meta read_list_meta) 0 h.next h x
      → let k = (domain_list_deep_copy_into copy_condition copy_meta copy_list_meta x h).1 in
        Agree h.next k.next k g
        → Agree 0 h.next k l
        → (y : DomainList L) × ((domain_list_deep_copy_object copy_condition copy_meta
              copy_list_meta
              (some x)
              h).0
            ≡ some y)
          × (read_domain_list read_meta read_list_meta g y
              ≡ read_domain_list read_meta read_list_meta h x)
          × (read_domain_list read_meta read_list_meta l x
              ≡ read_domain_list read_meta read_list_meta h x)
  unfolding domain_list_deep_copy_object
  domain_list_copy_independent x h g l taken within =
      independent (read_domain_list read_meta read_list_meta)
        (domain_list_deep_copy_into copy_condition copy_meta copy_list_meta) x h g l within
        (list_deep_copy_into-IsCopied (read_domain read_meta)
          (domain_deep_copy_into copy_condition copy_meta)
          (domain-Copies copy_condition same copy_meta read_meta meta-Copies) copy_list_meta
          read_list_meta list_meta-Copies x h taken within)
