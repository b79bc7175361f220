-- ===== src/SortSpeed/Windows.antt =====
-- The elements of an array, read off the memory.
use mbench.Prelude.{
  ℕ, zero, suc, ◌+◌, ◌≤◌, ◌<◌, ◌≡◌, ◌⊎◌, refl, ap, Bool, List, [], ◌∷◌, ◌++◌, All, length, Mem,
  store, store_self, store-ne, if◌then◌else◌, dec_lt, arith,
}
use mbench.SortSpeed.Items.{tally}

-- `a` is none of the `n` addresses from `start`.
abbrev pub Outside : ℕ → ℕ → ℕ → Type 0
Outside a start n = (a < start) ⊎ (start + n ≤ a)

-- The `n` elements from address `a`.
abbrev pub cells : Mem → ℕ → ℕ → List ℕ
cells m a zero = []
cells m a (suc n) = m a ∷ cells m (suc a) n

pub cells-congr :
    (m m' : Mem) (a a' n : ℕ)
    → ((i : ℕ) → i < n → m (a + i) ≡ m' (a' + i))
    → cells m a n ≡ cells m' a' n
cells-congr m m' a a' zero same = refl
cells-congr m m' a a' (suc n) same =
    let here = same 0 (omega arith) in
    let rest =
      cells-congr m m' (suc a) (suc a') n
        λ i lt. let next = same (suc i) (omega arith) in grind arith in
    grind arith

pub length-cells : (m : Mem) (a n : ℕ) → length (cells m a n) ≡ n
length-cells m a zero = refl
length-cells m a (suc n) = ap suc (length-cells m (suc a) n)

pub cells-append : (m : Mem) (a n k : ℕ) → cells m a (n + k) ≡ cells m a n ++ cells m (a + n) k
cells-append m a zero k = grind arith
cells-append m a (suc n) k = let rest = cells-append m (suc a) n k in by_rest rest
  where
    by_rest :
        cells m (suc a) (n + k) ≡ cells m (suc a) n ++ cells m (suc a + n) k
        → cells m a (suc n + k) ≡ (m a ∷ cells m (suc a) n) ++ cells m (a + suc n) k
    by_rest e = grind arith

pub All-cells :
    (P : ℕ → Type 0) (m : Mem) (a n : ℕ)
    → ((b : ℕ) → a ≤ b → b < a + n → P (m b))
    → All P (cells m a n)
All-cells P m a zero all = tt
All-cells P m a (suc n) all = (
  all a (omega arith) (omega arith),
  All-cells P m (suc a) n λ b le lt. all b (omega arith) (omega arith),
)

-- A store replaces one element.
pub tally-store :
    (p : ℕ → Bool) (m : Mem) (b v a n : ℕ)
    → a ≤ b
    → b < a + n
    → tally p (cells (store m b v) a n) + (if p (m b) then 1 else 0)
      ≡ tally p (cells m a n) + (if p v then 1 else 0)
tally-store p m b v a zero le lt = absurd (omega arith)
tally-store p m b v a (suc n) le lt = elim (dec_lt a b) [
  | yes up ↦
      let rest = tally-store p m b v (suc a) n up (omega arith) in
      let here = store-ne m b v a (λ e. omega (arith, e)) in grind arith
  | no not_up ↦
      let e : b ≡ a = omega (arith, not_up) in
      let same =
        cells-congr (store m b v) m (suc a) (suc a) n
          λ i lt'. store-ne m b v (suc a + i) (λ e'. omega (arith, e, e')) in
      let here = store_self m b v in grind arith
]

pub cells-All :
    (P : ℕ → Type 0) (m : Mem) (a n : ℕ)
    → All P (cells m a n)
    → (c : ℕ) → a ≤ c
    → c < a + n
    → P (m c)
cells-All P m a zero all c le lt = absurd (omega arith)
cells-All P m a (suc n) (here, rest) c le lt = elim (dec_lt a c) [
  | yes up ↦ cells-All P m (suc a) n rest c up (omega arith)
  | no at_a ↦ let e : c ≡ a = omega (arith, at_a, le) in rw e here
]
