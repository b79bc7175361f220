-- ===== src/MemLat/Parallel/Clears.antt =====
-- The slices of the threads cover the region and touch nothing else.
use mbench.Prelude.{
  ℕ, ◌+◌, ◌-◌, ◌*◌, ◌/◌, ◌≤◌, ◌<◌, ◌≡◌, refl, ◌∙◌, ◌⊎◌, inl, inr, List, [], ◌∷◌, arith, Mem, All,
  Occurs,
}
use mbench.MemLat.Parallel.{memset_slices, parallel_memset}

module _ (base len : ℕ) where
  slice_end : (n i : ℕ) → i < n → i * len + len ≤ n * len
  slice_end n i h = grind arith

  -- A word that is clear stays clear.
  slices-zero : (order : List ℕ) (m : Mem) (a : ℕ) → m a ≡ 0 → memset_slices base len order m a ≡ 0
  unfolding memset_slices
  slices-zero [] m a z = z
  slices-zero (i ∷ order) m a z = slices-zero order _ a (ground arith)

  slices-clear :
      (order : List ℕ) (m : Mem) (i a : ℕ)
      → Occurs i order
      → base + i * len ≤ a
      → a < base + i * len + len
      → memset_slices base len order m a ≡ 0
  unfolding memset_slices
  slices-clear [] m i a o lo hi = absurd o
  slices-clear (j ∷ order) m i a (inl e) lo hi = slices-zero order _ a (ground (arith, here))
    where
      here : base + j * len ≡ base + i * len
      here = rw e
  slices-clear (j ∷ order) m i a (inr o) lo hi = slices-clear order _ i a o lo hi

  slices-other :
      (n : ℕ) (order : List ℕ) (m : Mem) (a : ℕ)
      → All (λ i. i < n) order
      → (a < base) ⊎ (base + n * len ≤ a)
      → memset_slices base len order m a ≡ m a
  unfolding memset_slices
  slices-other n [] m a below out = refl
  slices-other n (i ∷ order) m a below out =
      slices-other n order _ a below.1 out ∙ ground (arith, slice_end n i below.0)

share_pos : (size omp : ℕ) → size ≡ size / omp * omp → 0 < size → 0 < size / omp
share_pos size omp exact some = grind arith

share_lt :
    (addr size omp a : ℕ)
    → 0 < omp
    → size ≡ size / omp * omp
    → addr ≤ a
    → a < addr + size
    → (a - addr) / (size / omp) < omp
share_lt addr size omp a some exact lo hi = grind arith

share_start : (addr a len : ℕ) → addr ≤ a → addr + (a - addr) / len * len ≤ a
share_start addr a len lo = grind arith

share_stop :
    (addr size omp a : ℕ)
    → 0 < omp
    → size ≡ size / omp * omp
    → addr ≤ a
    → a < addr + size
    → a < addr + (a - addr) / (size / omp) * (size / omp) + size / omp
share_stop addr size omp a some exact lo hi = grind arith

-- Wherever the thread count divides the size, `parallel_memset` clears every word of the region
-- and leaves all others alone, in whatever order its threads run, each at least once.
pub parallel_memset-zero :
    (addr size omp : ℕ) (order : List ℕ) (m : Mem)
    → 0 < omp
    → size ≡ size / omp * omp
    → ((i : ℕ) → i < omp → Occurs i order)
    → All (λ i. i < omp) order
    → (a : ℕ)
    → (addr ≤ a → a < addr + size → parallel_memset addr size omp order m a ≡ 0)
      × ((a < addr) ⊎ (addr + size ≤ a) → parallel_memset addr size omp order m a ≡ m a)
unfolding parallel_memset
parallel_memset-zero addr size omp order m some exact every below a = (
  λ lo hi.
      slices-clear addr (size / omp) order m ((a - addr) / (size / omp)) a
        (every _ (share_lt addr size omp a some exact lo hi)) (share_start addr a (size / omp) lo)
        (share_stop addr size omp a some exact lo hi),
  λ out. slices-other addr (size / omp) omp order m a below (omega arith),
)
