-- ===== src/Prelude/Sums.antt =====
-- Sums of a family of numbers over its first indices.
use Prim.Native.Nat.{ℕ, zero, suc, ◌+◌, ◌≤◌, ◌<◌}
use mathlib.Core.Path.{◌≡◌, refl}
use mathlib.Core.Logic.{◌≢◌}
use native.Mathlib.Decide.{ℕ_discrete}
use native.Mathlib.Omega.{arith}

abbrev pub total : ℕ → (ℕ → ℕ) → ℕ
total zero f = 0
total (suc n) f = total n f + f n

pub total-congr : (n : ℕ) (f g : ℕ → ℕ) → ((i : ℕ) → i < n → f i ≡ g i) → total n f ≡ total n g
total-congr zero f g h = refl
total-congr (suc n) f g h =
    omega (arith, total-congr n f g (λ i lt. h i (omega arith)), h n (omega arith))

-- Two families that differ at one index only.
pub total-change :
    (n : ℕ) (f g : ℕ → ℕ) (i : ℕ)
    → i < n
    → ((j : ℕ) → j ≢ i → f j ≡ g j)
    → total n f + g i ≡ total n g + f i
total-change zero f g i lt same = absurd (omega arith)
total-change (suc n) f g i lt same = elim (ℕ_discrete i n) [
  | yes e ↦ last e
  | no ne ↦ omega (arith, total-change n f g i (omega arith) same, same n (λ e. ne (omega arith)))
]
  where
    last : i ≡ n → total n f + f n + g i ≡ total n g + g n + f i
    last e =
        rw e
          (omega (arith, total-congr n f g (λ j lt. same j (λ e'. absurd (omega (arith, e, e'))))))

pub total-le : (n : ℕ) (f : ℕ → ℕ) → ((i : ℕ) → f i ≤ 1) → total n f ≤ n
total-le zero f h = omega arith
total-le (suc n) f h = omega (arith, total-le n f h, h n)

pub total-zero : (n : ℕ) (f : ℕ → ℕ) → ((i : ℕ) → i < n → f i ≡ 0) → total n f ≡ 0
total-zero zero f h = refl
total-zero (suc n) f h =
    omega (arith, total-zero n f (λ i lt. h i (omega arith)), h n (omega arith))

-- A sum below the number of its terms has a term that is 0.
pub total-find : (n : ℕ) (f : ℕ → ℕ) → total n f < n → (i : ℕ) × (i < n) × (f i ≡ 0)
total-find zero f h = absurd (omega arith)
total-find (suc n) f h = elim (ℕ_discrete (f n) 0) [
  | yes z ↦ (n, omega arith, z)
  | no nz ↦ let (i, lt, z) = total-find n f (omega arith) in (i, omega arith, z)
]
