-- ===== src/Common/Run.antt =====
-- Code that changes a state: the outside world, and the objects that Go passes by pointer.
abbrev pub Run : Type 0 → Type 0 → Type 0
Run S A = S → A × S

module _ {S : Type 0} where
  abbrev pub pure : {A : Type 0} → A → Run S A
  pure a s = (a, s)

  infixl 5 ◌>>=◌ ◌>>◌
  abbrev pub ◌>>=◌ : {A B : Type 0} → Run S A → (A → Run S B) → Run S B
  ◌>>=◌ m f s = let (a, t) = m s in f a t

  abbrev pub ◌>>◌ : {B : Type 0} → Run S (Unit {0}) → Run S B → Run S B
  m >> k = m >>= λ _. k

  abbrev pub get : Run S S
  get s = (s, s)
