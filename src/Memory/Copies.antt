-- ===== src/Memory/Copies.antt =====
-- Laws of copies: what rests on which arrays, and copies of parts one after the other.
use mailu_operator.Common.{ℕ, ◌≤◌, ◌≡◌, refl, sym, ◌∙◌, ap, arith}
use mailu_operator.Memory.{Heap, Agree, IsWithin, IsCopied}

module _ {I : Type 0} where
  -- Fewer arrays.
  pub Agree-narrow :
      {lo hi : ℕ} {g h : Heap I} (a b : ℕ) → lo ≤ a → b ≤ hi → Agree lo hi g h → Agree a b g h
  Agree-narrow a b p q agree = record {
    same_strings = λ r u v. agree.same_strings r (omega arith) (omega arith);
    same_conditions = λ r u v. agree.same_conditions r (omega arith) (omega arith);
    same_items = λ r u v. agree.same_items r (omega arith) (omega arith);
  }

  pub Agree-trans :
      {lo hi : ℕ} {g h k : Heap I} → Agree lo hi g h → Agree lo hi h k → Agree lo hi g k
  Agree-trans a b = record {
    same_strings = λ r u v. a.same_strings r u v ∙ b.same_strings r u v;
    same_conditions = λ r u v. a.same_conditions r u v ∙ b.same_conditions r u v;
    same_items = λ r u v. a.same_items r u v ∙ b.same_items r u v;
  }

  pub Agree-refl : {lo hi : ℕ} (h : Heap I) → Agree lo hi h h
  Agree-refl h = record {
    same_strings = λ r u v. refl;
    same_conditions = λ r u v. refl;
    same_items = λ r u v. refl;
  }

  -- What rests on memory that is taken still does when more is taken.
  pub IsWithin-later :
      {T V : Type 0} (read : Heap I → T → V) (x : T) (h k : Heap I)
      → h.next ≤ k.next
      → Agree 0 h.next h k
      → IsWithin read 0 h.next h x
      → IsWithin read 0 k.next k x
  IsWithin-later read x h k p keeps within g agree =
      within g (Agree-trans keeps (Agree-narrow 0 h.next (omega arith) p agree))
      ∙ sym (within k keeps)

  -- A value that holds no slices rests on nothing, and is its own copy.
  pub IsCopied-refl :
      {T V : Type 0} (read : Heap I → T → V) (x : T) (h : Heap I)
      → IsWithin read h.next h.next h x
      → IsCopied read x h x h
  IsCopied-refl read x h within = record {
    grows = omega arith;
    keeps = Agree-refl h;
    reads_same = refl;
    is_new = within;
  }

  abbrev pub both :
      {T U V W : Type 0} → (Heap I → T → V) → (Heap I → U → W) → Heap I → T × U → V × W
  both read show h (x, u) = (read h x, show h u)

  -- Two parts, the second copied after the first.
  pub IsCopied-pair :
      {T U V W : Type 0} (read : Heap I → T → V) (show : Heap I → U → W) (x : T) (u : U)
      (h : Heap I) (y : T) (k : Heap I) (v : U) (l : Heap I)
      → IsWithin show 0 h.next h u
      → IsCopied read x h y k
      → IsCopied show u k v l
      → IsCopied (both read show) (x, u) h (y, v) l
  IsCopied-pair read show x u h y k v l within a b =
      let to_l = Agree-narrow h.next k.next (omega arith) (omega arith) b.keeps in
      let first : read l y ≡ read k y = a.is_new l to_l in
      let second : show l v ≡ show h u = b.reads_same ∙ within k a.keeps in
      record {
        grows = omega (arith, a.grows, b.grows);
        keeps = Agree-trans a.keeps (Agree-narrow 0 h.next (omega arith) a.grows b.keeps);
        reads_same = λ i. ((first ∙ a.reads_same) i, second i);
        is_new = λ g agree i. (
          (a.is_new g (Agree-trans to_l (Agree-narrow h.next k.next (omega arith) b.grows agree))
                ∙ sym first)
              i,
          b.is_new g (Agree-narrow k.next l.next a.grows (omega arith) agree) i,
        );
      }

  -- A struct whose copy has the copy of a part, and reads by it.
  pub IsCopied-whole :
      {T U V W : Type 0} (read : Heap I → T → V) (show : Heap I → U → W) (f : V → W) (x y : T)
      (u v : U) (h k : Heap I)
      → ((g : Heap I) → show g u ≡ f (read g x))
      → ((g : Heap I) → show g v ≡ f (read g y))
      → IsCopied read x h y k
      → IsCopied show u h v k
  IsCopied-whole read show f x y u v h k p q a = record {
    grows = a.grows;
    keeps = a.keeps;
    reads_same = q k ∙ ap f a.reads_same ∙ sym (p h);
    is_new = λ g agree. q g ∙ ap f (a.is_new g agree) ∙ sym (q k);
  }
