-- ===== src/Memory/Independence/User.antt =====
-- The copies of User and UserList that api/v1alpha1/zz_generated.deepcopy.go makes share no memory with their
-- originals.
use mailu_operator.Common.{◌≡◌, some}
use mailu_operator.Resource.{Condition}
use mailu_operator.Resource.Specs.{UserSpec}
use mailu_operator.Memory.{Heap, Agree, IsWithin, Copies}
use mailu_operator.Memory.DeepCopy.{Copy}
use mailu_operator.Memory.DeepCopy.User.{
  User, UserList, user_spec_deep_copy_into, user_deep_copy_into, user_deep_copy_object,
  user_list_deep_copy_into, user_list_deep_copy_object,
}
use mailu_operator.Memory.Parts.{read_user_spec, user_spec-Copies}
use mailu_operator.Memory.Lists.{ListView, IsTaken, read_list, list_deep_copy_into-IsCopied}
use mailu_operator.Memory.Independence.{View, read_resource, resource-Copies, independent}

module _ {I M V : Type 0} (read_meta : Heap I → M → V) where
  abbrev pub read_user : Heap I → User M → View V UserSpec
  read_user = read_resource read_meta read_user_spec

module _ {M L V W : Type 0} (read_meta : Heap (User M) → M → V)
    (read_list_meta : Heap (User M) → L → W) where
  abbrev pub read_user_list : Heap (User M) → UserList L → ListView W (View V UserSpec)
  read_user_list = read_list (read_user read_meta) read_list_meta

module _ {I M V : Type 0} (copy_condition : Condition → Condition)
    (same : (c : Condition) → copy_condition c ≡ c) (copy_meta : Copy I M)
    (read_meta : Heap I → M → V) (meta-Copies : Copies read_meta copy_meta) where
  pub user-Copies : Copies (read_user read_meta) (user_deep_copy_into copy_condition copy_meta)
  unfolding user_deep_copy_into
  user-Copies =
      resource-Copies copy_condition same copy_meta read_meta meta-Copies user_spec_deep_copy_into
        read_user_spec user_spec-Copies

  -- Take a user in memory `h` that rests on arrays that are taken, and its copy by `DeepCopyObject`. If the
  -- metadata is copied without sharing, and conditions to equal ones: in every memory where the new arrays
  -- are as they were, whatever was written to the old ones, the copy reads as the original did; and in
  -- every memory where the old arrays are as they were, whatever was written to the new ones, so does the
  -- original.
  pub user_copy_independent :
      (x : User M) (h g l : Heap I)
      → IsWithin (read_user read_meta) 0 h.next h x
      → let k = (user_deep_copy_into copy_condition copy_meta x h).1 in
        Agree h.next k.next k g
        → Agree 0 h.next k l
        → (y : User M) × ((user_deep_copy_object copy_condition copy_meta (some x) h).0 ≡ some y)
          × (read_user read_meta g y ≡ read_user read_meta h x)
          × (read_user read_meta l x ≡ read_user read_meta h x)
  unfolding user_deep_copy_object
  user_copy_independent x h g l within =
      independent (read_user read_meta) (user_deep_copy_into copy_condition copy_meta) x h g l
        within (user-Copies x h within)

module _ {M L V W : Type 0} (copy_condition : Condition → Condition)
    (same : (c : Condition) → copy_condition c ≡ c) (copy_meta : Copy (User M) M)
    (read_meta : Heap (User M) → M → V) (meta-Copies : Copies read_meta copy_meta)
    (copy_list_meta : Copy (User M) L) (read_list_meta : Heap (User M) → L → W)
    (list_meta-Copies : Copies read_list_meta copy_list_meta) where
  -- Take a list of users in memory `h`, with its array taken, that rests on arrays that are taken,
  -- and its copy by `DeepCopyObject`. If metadata is copied without sharing, and conditions to equal ones: in
  -- every memory where the new arrays are as they were, the copy shows the items that the original
  -- showed; and in every memory where the old arrays are as they were, so does the original.
  pub user_list_copy_independent :
      (x : UserList L) (h g l : Heap (User M))
      → IsTaken h.next x.items
      → IsWithin (read_user_list read_meta read_list_meta) 0 h.next h x
      → let k = (user_list_deep_copy_into copy_condition copy_meta copy_list_meta x h).1 in
        Agree h.next k.next k g
        → Agree 0 h.next k l
        → (y : UserList L) × ((user_list_deep_copy_object copy_condition copy_meta copy_list_meta
              (some x)
              h).0
            ≡ some y)
          × (read_user_list read_meta read_list_meta g y
              ≡ read_user_list read_meta read_list_meta h x)
          × (read_user_list read_meta read_list_meta l x
              ≡ read_user_list read_meta read_list_meta h x)
  unfolding user_list_deep_copy_object
  user_list_copy_independent x h g l taken within =
      independent (read_user_list read_meta read_list_meta)
        (user_list_deep_copy_into copy_condition copy_meta copy_list_meta) x h g l within
        (list_deep_copy_into-IsCopied (read_user read_meta)
          (user_deep_copy_into copy_condition copy_meta)
          (user-Copies copy_condition same copy_meta read_meta meta-Copies) copy_list_meta
          read_list_meta list_meta-Copies x h taken within)
