-- ===== src/Memory/Independence.antt =====
-- The copies of api/v1alpha1/zz_generated.deepcopy.go share no memory with their originals.
pub mod Domain
pub mod Alias
pub mod User
use mailu_operator.Common.{
  ℕ, zero, suc, ◌≤◌, ◌<◌, ◌≡◌, refl, sym, ◌∙◌, ap, arith, Option, none, some, List, [], ◌∷◌, String,
  if◌then◌else◌, ◌==◌,
}
use mailu_operator.Resource.{Condition}
use mailu_operator.Resource.Specs.{
  DomainSpecOf, AliasSpecOf, UserSpecOf, DomainSpec, AliasSpec, UserSpec,
}
use mailu_operator.Memory.{Heap, Slice, Agree, IsWithin, IsCopied, Copies, write}
use mailu_operator.Memory.Copies.{
  IsCopied-pair, IsCopied-whole, IsCopied-refl, both, Agree-trans, IsWithin-later,
}
use mailu_operator.Memory.DeepCopy.{
  Copy, TypeMeta, Resource, copy_condition_slice, status_deep_copy_into, resource_deep_copy_into,
  deep_copy, deep_copy_object,
}
use mailu_operator.Memory.Parts.{read_conditions, copy_condition_slice-IsCopied}

-- What a resource shows.
pub record View (V W : Type 0) : Type 0 where
  pub type_meta : TypeMeta
  pub object_meta : V
  pub spec : W
  pub conditions : Option (List Condition)

module _ {I M V S W : Type 0} (read_meta : Heap I → M → V) (read_spec : Heap I → S → W) where
  abbrev pub read_resource : Heap I → Resource M S → View V W
  read_resource h x = record {
    type_meta = x.type_meta;
    object_meta = read_meta h x.object_meta;
    spec = read_spec h x.spec;
    conditions = read_conditions h x.status.conditions;
  }

module _ {I M V S W : Type 0} (copy_condition : Condition → Condition)
    (same : (c : Condition) → copy_condition c ≡ c) (copy_meta : Copy I M)
    (read_meta : Heap I → M → V) (meta-Copies : Copies read_meta copy_meta) (copy_spec : Copy I S)
    (read_spec : Heap I → S → W) (spec-Copies : Copies read_spec copy_spec) where
  pub resource-Copies :
      Copies
        (read_resource read_meta read_spec)
        (resource_deep_copy_into copy_meta copy_spec (status_deep_copy_into copy_condition))
  unfolding resource_deep_copy_into status_deep_copy_into
  resource-Copies x h within =
      let (m, h1) = copy_meta x.object_meta h in
      let (s, h2) = copy_spec x.spec h1 in
      let (p, h3) = copy_condition_slice copy_condition x.status.conditions h2 in
      let first = meta-Copies x.object_meta h (λ g a. ap (λ v. v.object_meta) (within g a)) in
      let spec_within : IsWithin read_spec 0 h.next h x.spec =
        λ g a. ap (λ v. v.spec) (within g a) in
      let second =
        spec-Copies x.spec h1
          (IsWithin-later read_spec x.spec h h1 first.grows first.keeps spec_within) in
      let third = copy_condition_slice-IsCopied copy_condition same x.status.conditions h2 in
      let two =
        IsCopied-pair read_meta read_spec x.object_meta x.spec h m h1 s h2 spec_within first
          second in
      let three =
        IsCopied-pair (both read_meta read_spec) read_conditions (x.object_meta, x.spec)
          x.status.conditions h (m, s) h2 p h3 (λ g a. ap (λ v. v.conditions) (within g a)) two
          third in
      IsCopied-whole (both (both read_meta read_spec) read_conditions)
        (read_resource read_meta read_spec)
        (λ q. record {
          type_meta = x.type_meta;
          object_meta = q.0.0;
          spec = q.0.1;
          conditions = q.1;
        })
        ((x.object_meta, x.spec), x.status.conditions) ((m, s), p) x
        (record x { object_meta = m; spec = s; status = record x.status { conditions = p } }) h h3
        (λ g. refl) (λ g. refl) three

module _ {I T V : Type 0} (read : Heap I → T → V) (into : Copy I T) where
  -- What is written to other arrays than those of a copy does not show in it.
  pub independent :
      (x : T) (h g l : Heap I)
      → IsWithin read 0 h.next h x
      → IsCopied read x h (into x h).0 (into x h).1
      → Agree h.next (into x h).1.next (into x h).1 g
      → Agree 0 h.next (into x h).1 l
      → (y : T) × ((deep_copy_object (deep_copy into) (some x) h).0 ≡ some y)
        × (read g y ≡ read h x)
        × (read l x ≡ read h x)
  unfolding deep_copy deep_copy_object
  independent x h g l within c old_written new_written =
      let (y, k) = into x h in
      (y, refl, c.is_new g old_written ∙ c.reads_same, within l (Agree-trans c.keeps new_written))
