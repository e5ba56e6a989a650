-- ===== src/Memory/DeepCopy.antt =====
-- What the functions of api/v1alpha1/zz_generated.deepcopy.go share; DeepCopy/* has the functions. A struct
-- is a value, and its slices point to arrays; a pointer to a struct is the struct, or nil. `DeepCopyInto`
-- of the types of k8s.io/apimachinery is a parameter.
pub mod Domain
pub mod Alias
pub mod User
use mailu_operator.Common.{ℕ, suc, String, List, [], ◌∷◌, Option, none, some}
use mailu_operator.Resource.{Condition}
use mailu_operator.Memory.{Heap, Slice, write, new_strings, new_conditions}

-- `metav1.TypeMeta`
pub record TypeMeta : Type 0 where
  pub kind : String
  pub api_version : String

-- `DomainStatus`, `AliasStatus` and `UserStatus`
pub record Status : Type 0 where
  pub conditions : Slice

-- A `Domain`, `Alias` or `User` with metadata `M` and spec `S`.
pub record Resource (M S : Type 0) : Type 0 where
  pub type_meta : TypeMeta
  pub object_meta : M
  pub spec : S
  pub status : Status

-- A `DomainList`, `AliasList` or `UserList` with metadata `L`.
pub record ResourceList (L : Type 0) : Type 0 where
  pub type_meta : TypeMeta
  pub list_meta : L
  pub items : Slice

-- A function that copies `*in` to `*out`.
abbrev pub Copy : Type 0 → Type 0 → Type 0
Copy I T = T → Heap I → T × Heap I

-- The loop over the conditions.
unfoldable pub copy_conditions : (Condition → Condition) → List Condition → List Condition
copy_conditions copy_condition [] = []
copy_conditions copy_condition (c ∷ cs) = copy_condition c ∷ copy_conditions copy_condition cs

module _ {I : Type 0} where
  -- A field of type `[]string`: if it is not nil, its array is copied to a new one.
  unfoldable pub copy_strings : Copy I Slice
  copy_strings none h = (none, h)
  copy_strings (some r) h = new_strings (h.strings r) h

  -- `DeepCopy`: nil is copied to nil.
  unfoldable pub deep_copy : {T : Type 0} → Copy I T → Copy I (Option T)
  deep_copy into none h = (none, h)
  deep_copy into (some x) h = let (y, k) = into x h in (some y, k)

  -- `DeepCopyObject`, by `DeepCopy`: a nil pointer is returned as a nil interface.
  unfoldable pub deep_copy_object : {T : Type 0} → Copy I (Option T) → Copy I (Option T)
  deep_copy_object copy x h =
      let (c, k) = copy x h in elim c [ some y ↦ (some y, k) | none ↦ (none, k) ]

  module _ (copy_condition : Condition → Condition) where
    -- A field of type `[]v1.Condition`.
    unfoldable pub copy_condition_slice : Copy I Slice
    unfolding copy_conditions
    copy_condition_slice none h = (none, h)
    copy_condition_slice (some r) h =
        new_conditions (copy_conditions copy_condition (h.conditions r)) h

    unfoldable pub status_deep_copy_into : Copy I Status
    unfolding copy_condition_slice
    status_deep_copy_into status h =
        let (p, k) = copy_condition_slice status.conditions h in
        (record status { conditions = p }, k)

  -- `DeepCopyInto` of a resource, by that of its spec and of its status.
  unfoldable pub resource_deep_copy_into :
      {M S : Type 0} → Copy I M → Copy I S → Copy I Status → Copy I (Resource M S)
  resource_deep_copy_into copy_meta copy_spec copy_status x h =
      let (meta, h1) = copy_meta x.object_meta h in
      let (spec, h2) = copy_spec x.spec h1 in
      let (status, h3) = copy_status x.status h2 in
      (record x { object_meta = meta; spec = spec; status = status }, h3)

  -- The loop over the items.
  unfoldable pub copy_items : Copy I I → Copy I (List I)
  copy_items into [] h = ([], h)
  copy_items into (x ∷ xs) h =
      let (y, h1) = into x h in let (ys, h2) = copy_items into xs h1 in (y ∷ ys, h2)

  -- `make([]T, n)`, filled by the loop.
  unfoldable pub new_items : Copy I I → List I → Heap I → Slice × Heap I
  unfolding copy_items
  new_items into xs h =
      let room = record h { next = suc h.next; items = write h.items h.next [] } in
      let (ys, k) = copy_items into xs room in
      (some h.next, record k { items = write k.items h.next ys })

  -- A field of type `[]T` for a resource `T`.
  unfoldable pub copy_item_slice : Copy I I → Copy I Slice
  unfolding new_items
  copy_item_slice into none h = (none, h)
  copy_item_slice into (some r) h = new_items into (h.items r) h

  -- `DeepCopyInto` of a list of resources.
  unfoldable pub list_deep_copy_into : {L : Type 0} → Copy I L → Copy I I → Copy I (ResourceList L)
  unfolding copy_item_slice
  list_deep_copy_into copy_meta into x h =
      let (meta, h1) = copy_meta x.list_meta h in
      let (p, h2) = copy_item_slice into x.items h1 in
      (record x { list_meta = meta; items = p }, h2)
