-- ===== src/Memory/Lists.antt =====
-- The copies that api/v1alpha1/zz_generated.deepcopy.go makes of lists of resources.
use mailu_operator.Common.{
  ℕ, suc, ◌≤◌, ◌<◌, ◌≡◌, refl, sym, ◌∙◌, ap, arith, Option, none, some, List, [], ◌∷◌,
}
use mailu_operator.Memory.{Heap, Slice, Agree, IsWithin, IsCopied, Copies, write}
use mailu_operator.Memory.Copies.{
  IsCopied-pair, IsCopied-whole, IsCopied-refl, both, IsWithin-later, Agree-trans, Agree-narrow,
}
use mailu_operator.Memory.DeepCopy.{
  Copy, TypeMeta, ResourceList, copy_items, new_items, copy_item_slice, list_deep_copy_into,
}

-- What a list shows.
pub record ListView (W V : Type 0) : Type 0 where
  pub type_meta : TypeMeta
  pub list_meta : W
  pub items : Option (List V)

-- The array of a slice is taken.
abbrev pub IsTaken : ℕ → Slice → Type 0
IsTaken n none = Unit
IsTaken n (some r) = r < n

module _ {I V : Type 0} (read : Heap I → I → V) where
  abbrev pub read_all : Heap I → List I → List V
  read_all h [] = []
  read_all h (x ∷ xs) = read h x ∷ read_all h xs

  abbrev pub read_items : Heap I → Slice → Option (List V)
  read_items h none = none
  read_items h (some r) = some (read_all h (h.items r))

  module _ {L W : Type 0} (read_meta : Heap I → L → W) where
    abbrev pub read_list : Heap I → ResourceList L → ListView W V
    read_list h x = record {
      type_meta = x.type_meta;
      list_meta = read_meta h x.list_meta;
      items = read_items h x.items;
    }

module _ {I V : Type 0} (read : Heap I → I → V) (into : Copy I I)
    (into-Copies : Copies read into) where
  -- The loop over the items.
  copy_items-IsCopied :
      (xs : List I) (h : Heap I)
      → IsWithin (read_all read) 0 h.next h xs
      → IsCopied (read_all read) xs h (copy_items into xs h).0 (copy_items into xs h).1
  unfolding copy_items
  copy_items-IsCopied [] h within = IsCopied-refl (read_all read) [] h (λ g agree. refl)
  copy_items-IsCopied (x ∷ xs) h within =
      let (y, h1) = into x h in
      let (ys, h2) = copy_items into xs h1 in
      let first = into-Copies x h (λ g agree. cc (within g agree)) in
      let rest : IsWithin (read_all read) 0 h.next h xs = λ g agree. cc (within g agree) in
      IsCopied-whole (both read (read_all read)) (read_all read) (λ p. p.0 ∷ p.1) (x, xs) (y, ys)
        (x ∷ xs) (y ∷ ys) h h2 (λ g. refl) (λ g. refl)
        (IsCopied-pair read (read_all read) x xs h y h1 ys h2 rest first (
          copy_items-IsCopied xs h1
            (IsWithin-later (read_all read) xs h h1 first.grows first.keeps rest)))

  items-IsWithin :
      (r : ℕ) (h : Heap I)
      → r < h.next
      → IsWithin (read_items read) 0 h.next h (some r)
      → IsWithin (read_all read) 0 h.next h (h.items r)
  items-IsWithin r h taken within g agree =
      let same : g.items r ≡ h.items r = sym (agree.same_items r (omega arith) taken) in
      ap (read_all read g) (sym same) ∙ cc (within g agree)

  -- A new array of items, filled by the loop.
  copied_array :
      (xs : List I) (h : Heap I)
      → IsWithin (read_all read) 0 h.next h xs
      → let (p, k) = new_items into xs h in
        (h.next ≤ k.next)
        × Agree 0 h.next h k
        × (read_items read k p ≡ some (read_all read h xs))
        × IsWithin (read_items read) h.next k.next k p
  unfolding new_items
  copied_array xs h within =
      let room : Heap I = record h { next = suc h.next; items = write h.items h.next [] } in
      let opened : Agree 0 h.next h room = record {
        same_strings = λ q u v. refl;
        same_conditions = λ q u v. refl;
        same_items = λ q u v. ground arith;
      } in
      let (ys, k) = copy_items into xs room in
      let c =
        copy_items-IsCopied xs room
          (IsWithin-later (read_all read) xs h room (omega arith) opened within) in
      let end : Heap I = record k { items = write k.items h.next ys } in
      let closed : Agree room.next k.next k end = record {
        same_strings = λ q u v. refl;
        same_conditions = λ q u v. refl;
        same_items = λ q u v. ground arith;
      } in
      let kept : Agree 0 h.next k end = record {
        same_strings = λ q u v. refl;
        same_conditions = λ q u v. refl;
        same_items = λ q u v. ground arith;
      } in
      let filled : end.items h.next ≡ ys = ground arith in
      (
        omega (arith, c.grows),
        Agree-trans opened
            (Agree-trans (Agree-narrow 0 h.next (omega arith) (omega arith) c.keeps) kept),
        ap some (
            ap (read_all read end) filled
            ∙ c.is_new end closed
            ∙ c.reads_same
            ∙ within room opened),
        λ g agree. ap some (
            ap (read_all read g)
              (sym (agree.same_items h.next (omega arith) (omega (arith, c.grows))) ∙ filled)
            ∙ c.is_new g (
                Agree-trans closed
                  (Agree-narrow room.next k.next (omega arith) (omega arith) agree))
            ∙ sym (ap (read_all read end) filled ∙ c.is_new end closed)),
      )

  IsTaken-later : (x : Slice) (m n : ℕ) → m ≤ n → IsTaken m x → IsTaken n x
  IsTaken-later none m n grows taken = taken
  IsTaken-later (some r) m n grows taken = omega arith

  copy_item_slice-IsCopied :
      (x : Slice) (h : Heap I)
      → IsTaken h.next x
      → IsWithin (read_items read) 0 h.next h x
      → IsCopied (read_items read) x h (copy_item_slice into x h).0 (copy_item_slice into x h).1
  unfolding copy_item_slice
  copy_item_slice-IsCopied none h taken within =
      IsCopied-refl (read_items read) none h (λ g agree. refl)
  copy_item_slice-IsCopied (some r) h taken within =
      let (grows, keeps, reads_same, is_new) =
        copied_array (h.items r) h (items-IsWithin r h taken within) in
      record { grows = grows; keeps = keeps; reads_same = reads_same; is_new = is_new }

  module _ {L W : Type 0} (copy_meta : Copy I L) (read_meta : Heap I → L → W)
      (meta-Copies : Copies read_meta copy_meta) where
    pub list_deep_copy_into-IsCopied :
        (x : ResourceList L) (h : Heap I)
        → IsTaken h.next x.items
        → IsWithin (read_list read read_meta) 0 h.next h x
        → IsCopied
            (read_list read read_meta)
            x
            h
            (list_deep_copy_into copy_meta into x h).0
            (list_deep_copy_into copy_meta into x h).1
    unfolding list_deep_copy_into
    list_deep_copy_into-IsCopied x h taken within =
        let (m, h1) = copy_meta x.list_meta h in
        let (p, h2) = copy_item_slice into x.items h1 in
        let items_within_h : IsWithin (read_items read) 0 h.next h x.items =
          λ g a. ap (λ v. v.items) (within g a) in
        let first = meta-Copies x.list_meta h (λ g a. ap (λ v. v.list_meta) (within g a)) in
        let second =
          copy_item_slice-IsCopied x.items h1
            (IsTaken-later x.items h.next h1.next first.grows taken)
            (IsWithin-later (read_items read) x.items h h1 first.grows first.keeps
              items_within_h) in
        IsCopied-whole (both read_meta (read_items read)) (read_list read read_meta)
          (λ q. record { type_meta = x.type_meta; list_meta = q.0; items = q.1 })
          (x.list_meta, x.items) (m, p) x (record x { list_meta = m; items = p }) h h2 (λ g. refl)
          (λ g. refl)
          (IsCopied-pair read_meta (read_items read) x.list_meta x.items h m h1 p h2 items_within_h
            first second)
