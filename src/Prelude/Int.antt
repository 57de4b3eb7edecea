-- ===== src/Prelude/Int.antt =====
-- Go's `int`, where the program only stores, prints or compares it.
use Prim.Native.Nat.{ℕ}
use mathlib.Core.Path.{◌≡◌, ap}
use mathlib.Core.Logic.{dite}
use native.Mathlib.Decide.{ℕ_discrete}
use pigate.Prelude.Equality.{Eq}

-- `negsuc n` is -(n + 1).
pub data ℤ : Type 0 where
  pos : ℕ → ℤ
  negsuc : ℕ → ℤ

pos_inj : (m n : ℕ) → pos m ≡ pos n → m ≡ n
pos_inj m n p = cc

negsuc_inj : (m n : ℕ) → negsuc m ≡ negsuc n → m ≡ n
negsuc_inj m n p = cc

pos-ne-negsuc : (m n : ℕ) → pos m ≡ negsuc n → ⊥
pos-ne-negsuc m n p = cc

negsuc-ne-pos : (m n : ℕ) → negsuc m ≡ pos n → ⊥
negsuc-ne-pos m n p = cc

ℤ_discrete : Discrete ℤ
ℤ_discrete (pos m) (pos n) =
    dite (ℕ_discrete m n) (λ p. yes (ap pos p)) (λ q. no (λ p. q (pos_inj m n p)))
ℤ_discrete (pos m) (negsuc n) = no (pos-ne-negsuc m n)
ℤ_discrete (negsuc m) (pos n) = no (negsuc-ne-pos m n)
ℤ_discrete (negsuc m) (negsuc n) =
    dite (ℕ_discrete m n) (λ p. yes (ap negsuc p)) (λ q. no (λ p. q (negsuc_inj m n p)))

instance unfoldable pub int_eq : Eq ℤ
unfolding ℤ_discrete ℕ_discrete pos_inj negsuc_inj pos-ne-negsuc negsuc-ne-pos
int_eq = record { dec = ℤ_discrete }
