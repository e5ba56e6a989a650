-- ===== src/Memory.antt =====
-- The memory behind the slices of the resources of api/v1alpha1: arrays that structs point to, and the copies
-- that zz_generated.deepcopy.go makes of them.
pub mod Copies
pub mod DeepCopy
pub mod Parts
pub mod Independence
pub mod Lists
use mailu_operator.Common.{
  ℕ, suc, ◌≤◌, ◌<◌, ◌==◌, ◌≡◌, String, List, [], Option, none, some, if◌then◌else◌,
}
use mailu_operator.Resource.{Condition}

-- The arrays by their addresses: of strings, of conditions, and of the items of a list. All below `next` are
-- taken.
pub record Heap (I : Type 0) : Type 0 where
  pub next : ℕ
  pub strings : ℕ → List String
  pub conditions : ℕ → List Condition
  pub items : ℕ → List I

-- A slice over a whole array, or nil.
abbrev pub Slice : Type 0
Slice = Option ℕ

abbrev pub write : {A : Type 0} → (ℕ → A) → ℕ → A → ℕ → A
write f r a q = if q == r then a else f q

module _ {I : Type 0} where
  -- `make([]string, n)` that is filled by `copy`.
  abbrev pub new_strings : List String → Heap I → Slice × Heap I
  new_strings l h =
      (some h.next, record h { next = suc h.next; strings = write h.strings h.next l })

  abbrev pub new_conditions : List Condition → Heap I → Slice × Heap I
  new_conditions l h =
      (some h.next, record h { next = suc h.next; conditions = write h.conditions h.next l })

  -- The same arrays from address `lo` up to `hi`.
  pub record Agree (lo hi : ℕ) (g h : Heap I) : Type 0 where
    pub same_strings : (r : ℕ) → lo ≤ r → r < hi → g.strings r ≡ h.strings r
    pub same_conditions : (r : ℕ) → lo ≤ r → r < hi → g.conditions r ≡ h.conditions r
    pub same_items : (r : ℕ) → lo ≤ r → r < hi → g.items r ≡ h.items r

  -- What `read` shows of `x` in `h` rests on the arrays from `lo` up to `hi` alone.
  abbrev pub IsWithin : {T V : Type 0} → (Heap I → T → V) → ℕ → ℕ → Heap I → T → Type 0
  IsWithin {T} {V} read lo hi h x = (g : Heap I) → Agree lo hi h g → read g x ≡ read h x

  -- The copy reads as the original does, and it rests on new arrays; the old ones are as they were.
  pub record IsCopied {T V : Type 0} (read : Heap I → T → V) (x : T) (h : Heap I) (y : T)
      (k : Heap I) : Type 0 where
    pub grows : h.next ≤ k.next
    pub keeps : Agree 0 h.next h k
    pub reads_same : read k y ≡ read h x
    pub is_new : IsWithin read h.next k.next k y

  -- So does `copy` for every value that rests on memory that is taken.
  abbrev pub Copies : {T V : Type 0} → (Heap I → T → V) → (T → Heap I → T × Heap I) → Type 0
  Copies {T} {V} read copy =
      (x : T) (h : Heap I)
      → IsWithin read 0 h.next h x
      → IsCopied read x h (copy x h).0 (copy x h).1
