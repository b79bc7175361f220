-- ===== src/MbmStream/Reports.antt =====
-- What the summary of mbm_stream_dynamic.c makes of the times of the iterations.
use mbench.Prelude.{ℕ, zero, suc, ◌+◌, ◌<◌, ◌≤◌, ◌≡◌, refl, All, ℕ_discrete, arith}
use mathlib.Core.Path.{subst}
use mbench.Floats.{Floats}
use mbench.Stream.Program.{iterations}
use mbench.Stream.Times
use mbench.Stream.Times.{add_times}
use mbench.Stream.Times.Extremes.{Ordered, OneOf, Between, summary_extremes}
use mbench.MbmStream.{ntimes, skip_first, summary}

iterations-All :
    {A : Type 0} (P : A → Type 0) (f : ℕ → A) (k count : ℕ)
    → ((i : ℕ) → P (f i))
    → All P (iterations f k count)
unfolding iterations
iterations-All P f k zero h = tt
iterations-All P f k (suc count) h = (h k, iterations-All P f (suc k) count h)

All-iterations :
    {A : Type 0} (P : A → Type 0) (f : ℕ → A) (k count i : ℕ)
    → All P (iterations f k count)
    → k ≤ i
    → i < k + count
    → P (f i)
unfolding iterations
All-iterations P f k zero i all low high = absurd (omega arith)
All-iterations P f k (suc count) i all low high = elim (ℕ_discrete k i) [
  | yes e ↦ subst (λ j. P (f j)) e all.0
  | no ne ↦ All-iterations P f (suc k) count i all.1 (ground arith) (omega arith)
]

module _ (F : Floats) (Num : F.R → Type 0) (ord : Ordered F Num) where
  open F use {R, of_ℕ, lit, add, mul, div}

  -- The sum of `f k` to `f (k + n - 1)`, in that order.
  abbrev pub sum_from : (ℕ → R) → ℕ → ℕ → R
  sum_from f k zero = of_ℕ 0
  sum_from f k (suc n) = add (sum_from f k n) (f (k + n))

  -- For iteration times that are numbers, on which the comparison is irreflexive, asymmetric and
  -- negatively transitive, the line of a kernel leaves iteration 0 out: its average is the sum of
  -- the times of iterations 1 to 9, in order, divided by 9, and its rate is 1.0E-6 times the bytes
  -- divided by that average; its minimum is one of the 9 times or `FLT_MAX`, its maximum one of
  -- them or 0, and none of them is below the one or above the other.
  pub summary_skips_first :
      (flt_max : R) (n_bytes : ℕ) (times : ℕ → R)
      → Num flt_max
      → Num (of_ℕ 0)
      → ((k : ℕ) → Num (times k))
      → ((summary F flt_max n_bytes (iterations times 0 ntimes)).avg
          ≡ div (sum_from times 1 9) (of_ℕ 9))
        × ((summary F flt_max n_bytes (iterations times 0 ntimes)).avg_rate
            ≡ div (mul (lit 1 6) (of_ℕ n_bytes)) (div (sum_from times 1 9) (of_ℕ 9)))
        × OneOf F Num ord
            (summary F flt_max n_bytes (iterations times 0 ntimes)).min_time
            flt_max
            (iterations times 1 9)
        × OneOf F Num ord
            (summary F flt_max n_bytes (iterations times 0 ntimes)).max_time
            (of_ℕ 0)
            (iterations times 1 9)
        × ((k : ℕ)
            → 1 ≤ k
            → k < 10
            → Between F Num ord
                (summary F flt_max n_bytes (iterations times 0 ntimes)).min_time
                (summary F flt_max n_bytes (iterations times 0 ntimes)).max_time
                (times k))
  unfolding summary skip_first iterations add_times mbench.Stream.Times.summary
  summary_skips_first flt_max n_bytes times top zero_is ns =
      let (low, high, all) =
        summary_extremes F Num ord flt_max n_bytes 9 (iterations times 1 9) top zero_is
          (iterations-All Num times 1 9 ns) in
      let line = summary F flt_max n_bytes (iterations times 0 ntimes) in
      (
        refl,
        refl,
        low,
        high,
        λ k le lt.
            All-iterations (Between F Num ord line.min_time line.max_time) times 1 9 k all le
              (omega arith),
      )
