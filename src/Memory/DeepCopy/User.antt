-- ===== src/Memory/DeepCopy/User.antt =====
-- api/v1alpha1/zz_generated.deepcopy.go: the functions of User, UserList, UserSpec and UserStatus.
use mailu_operator.Common.{Option}
use mailu_operator.Resource.{Condition}
use mailu_operator.Resource.Specs.{UserSpecOf}
use mailu_operator.Memory.{Slice}
use mailu_operator.Memory.DeepCopy.{
  Copy, Status, Resource, ResourceList, copy_strings, deep_copy, deep_copy_object,
  resource_deep_copy_into, status_deep_copy_into, list_deep_copy_into,
}

-- `User`
abbrev pub User : Type 0 → Type 0
User M = Resource M (UserSpecOf Slice)

-- `UserList`
abbrev pub UserList : Type 0 → Type 0
UserList L = ResourceList L

-- `UserStatus`
abbrev pub UserStatus : Type 0
UserStatus = Status

module _ {I : Type 0} where
  unfoldable pub user_spec_deep_copy_into : Copy I (UserSpecOf Slice)
  unfolding copy_strings
  user_spec_deep_copy_into spec h =
      let (p, k) = copy_strings spec.forward_destination h in
      (record spec { forward_destination = p }, k)

  unfoldable pub user_spec_deep_copy : Copy I (Option (UserSpecOf Slice))
  unfolding user_spec_deep_copy_into deep_copy
  user_spec_deep_copy = deep_copy user_spec_deep_copy_into

  module _ (copy_condition : Condition → Condition) where
    unfoldable pub user_status_deep_copy_into : Copy I UserStatus
    unfolding status_deep_copy_into
    user_status_deep_copy_into = status_deep_copy_into copy_condition

    unfoldable pub user_status_deep_copy : Copy I (Option UserStatus)
    unfolding user_status_deep_copy_into deep_copy
    user_status_deep_copy = deep_copy user_status_deep_copy_into

    module _ {M : Type 0} (copy_meta : Copy I M) where
      unfoldable pub user_deep_copy_into : Copy I (User M)
      unfolding user_spec_deep_copy_into user_status_deep_copy_into resource_deep_copy_into
      user_deep_copy_into =
          resource_deep_copy_into copy_meta user_spec_deep_copy_into user_status_deep_copy_into

      unfoldable pub user_deep_copy : Copy I (Option (User M))
      unfolding user_deep_copy_into deep_copy
      user_deep_copy = deep_copy user_deep_copy_into

      unfoldable pub user_deep_copy_object : Copy I (Option (User M))
      unfolding user_deep_copy deep_copy_object
      user_deep_copy_object = deep_copy_object user_deep_copy

-- A memory whose lists hold user resources.
module _ {M L : Type 0} (copy_condition : Condition → Condition) (copy_meta : Copy (User M) M)
    (copy_list_meta : Copy (User M) L) where
  unfoldable pub user_list_deep_copy_into : Copy (User M) (UserList L)
  unfolding user_deep_copy_into list_deep_copy_into
  user_list_deep_copy_into =
      list_deep_copy_into copy_list_meta (user_deep_copy_into copy_condition copy_meta)

  unfoldable pub user_list_deep_copy : Copy (User M) (Option (UserList L))
  unfolding user_list_deep_copy_into deep_copy
  user_list_deep_copy = deep_copy user_list_deep_copy_into

  unfoldable pub user_list_deep_copy_object : Copy (User M) (Option (UserList L))
  unfolding user_list_deep_copy deep_copy_object
  user_list_deep_copy_object = deep_copy_object user_list_deep_copy
