-- ===== src/Memory/Independence/Alias.antt =====
-- The copies of Alias and AliasList that api/v1alpha1/zz_generated.deepcopy.go makes share no memory with
-- their originals.
use mailu_operator.Common.{◌≡◌, some}
use mailu_operator.Resource.{Condition}
use mailu_operator.Resource.Specs.{AliasSpec}
use mailu_operator.Memory.{Heap, Agree, IsWithin, Copies}
use mailu_operator.Memory.DeepCopy.{Copy}
use mailu_operator.Memory.DeepCopy.Alias.{
  Alias, AliasList, alias_spec_deep_copy_into, alias_deep_copy_into, alias_deep_copy_object,
  alias_list_deep_copy_into, alias_list_deep_copy_object,
}
use mailu_operator.Memory.Parts.{read_alias_spec, alias_spec-Copies}
use mailu_operator.Memory.Lists.{ListView, IsTaken, read_list, list_deep_copy_into-IsCopied}
use mailu_operator.Memory.Independence.{View, read_resource, resource-Copies, independent}

module _ {I M V : Type 0} (read_meta : Heap I → M → V) where
  abbrev pub read_alias : Heap I → Alias M → View V AliasSpec
  read_alias = read_resource read_meta read_alias_spec

module _ {M L V W : Type 0} (read_meta : Heap (Alias M) → M → V)
    (read_list_meta : Heap (Alias M) → L → W) where
  abbrev pub read_alias_list : Heap (Alias M) → AliasList L → ListView W (View V AliasSpec)
  read_alias_list = read_list (read_alias read_meta) read_list_meta

module _ {I M V : Type 0} (copy_condition : Condition → Condition)
    (same : (c : Condition) → copy_condition c ≡ c) (copy_meta : Copy I M)
    (read_meta : Heap I → M → V) (meta-Copies : Copies read_meta copy_meta) where
  pub alias-Copies : Copies (read_alias read_meta) (alias_deep_copy_into copy_condition copy_meta)
  unfolding alias_deep_copy_into
  alias-Copies =
      resource-Copies copy_condition same copy_meta read_meta meta-Copies alias_spec_deep_copy_into
        read_alias_spec alias_spec-Copies

  -- Take an alias in memory `h` that rests on arrays that are taken, and its copy by `DeepCopyObject`. If
  -- the metadata is copied without sharing, and conditions to equal ones: in every memory where the new
  -- arrays are as they were, whatever was written to the old ones, the copy reads as the original did; and
  -- in every memory where the old arrays are as they were, whatever was written to the new ones, so does
  -- the original.
  pub alias_copy_independent :
      (x : Alias M) (h g l : Heap I)
      → IsWithin (read_alias read_meta) 0 h.next h x
      → let k = (alias_deep_copy_into copy_condition copy_meta x h).1 in
        Agree h.next k.next k g
        → Agree 0 h.next k l
        → (y : Alias M) × ((alias_deep_copy_object copy_condition copy_meta (some x) h).0 ≡ some y)
          × (read_alias read_meta g y ≡ read_alias read_meta h x)
          × (read_alias read_meta l x ≡ read_alias read_meta h x)
  unfolding alias_deep_copy_object
  alias_copy_independent x h g l within =
      independent (read_alias read_meta) (alias_deep_copy_into copy_condition copy_meta) x h g l
        within (alias-Copies x h within)

module _ {M L V W : Type 0} (copy_condition : Condition → Condition)
    (same : (c : Condition) → copy_condition c ≡ c) (copy_meta : Copy (Alias M) M)
    (read_meta : Heap (Alias M) → M → V) (meta-Copies : Copies read_meta copy_meta)
    (copy_list_meta : Copy (Alias M) L) (read_list_meta : Heap (Alias M) → L → W)
    (list_meta-Copies : Copies read_list_meta copy_list_meta) where
  -- Take a list of aliases in memory `h`, with its array taken, that rests on arrays that are taken,
  -- and its copy by `DeepCopyObject`. If metadata is copied without sharing, and conditions to equal ones: in
  -- every memory where the new arrays are as they were, the copy shows the items that the original
  -- showed; and in every memory where the old arrays are as they were, so does the original.
  pub alias_list_copy_independent :
      (x : AliasList L) (h g l : Heap (Alias M))
      → IsTaken h.next x.items
      → IsWithin (read_alias_list read_meta read_list_meta) 0 h.next h x
      → let k = (alias_list_deep_copy_into copy_condition copy_meta copy_list_meta x h).1 in
        Agree h.next k.next k g
        → Agree 0 h.next k l
        → (y : AliasList L) × ((alias_list_deep_copy_object copy_condition copy_meta copy_list_meta
              (some x)
              h).0
            ≡ some y)
          × (read_alias_list read_meta read_list_meta g y
              ≡ read_alias_list read_meta read_list_meta h x)
          × (read_alias_list read_meta read_list_meta l x
              ≡ read_alias_list read_meta read_list_meta h x)
  unfolding alias_list_deep_copy_object
  alias_list_copy_independent x h g l taken within =
      independent (read_alias_list read_meta read_list_meta)
        (alias_list_deep_copy_into copy_condition copy_meta copy_list_meta) x h g l within
        (list_deep_copy_into-IsCopied (read_alias read_meta)
          (alias_deep_copy_into copy_condition copy_meta)
          (alias-Copies copy_condition same copy_meta read_meta meta-Copies) copy_list_meta
          read_list_meta list_meta-Copies x h taken within)
