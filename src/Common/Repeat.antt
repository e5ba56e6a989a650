-- ===== src/Common/Repeat.antt =====
-- A step that is taken a number of times.
use Prim.Native.Nat.{ℕ, zero, suc}
use mathlib.Core.Path.{◌≡◌, refl}

unfoldable pub repeat : {S : Type 0} → (S → S) → ℕ → S → S
repeat f zero s = s
repeat f (suc n) s = repeat f n (f s)

-- The last step apart.
pub repeat-suc : {S : Type 0} (f : S → S) (n : ℕ) (s : S) → repeat f (suc n) s ≡ f (repeat f n s)
unfolding repeat
repeat-suc f zero s = refl
repeat-suc f (suc n) s = repeat-suc f n (f s)
