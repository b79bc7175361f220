-- ===== src/MemLat/Phases/Fill.antt =====
-- The fills of `parallel_test` leave the rings of all threads as the setups made them.
use mbench.Prelude.{
  ℕ, zero, suc, ◌+◌, ◌*◌, ◌/◌, ◌^◌, ◌≤◌, ◌<◌, ◌≡◌, refl, sym, ap, ◌∙◌, ◌≢◌, Bool, some, List, arith,
  ℕ_discrete, All, Distinct, eq_of_some, Mem, chase, >>=-eq-some,
}
use mathlib.Core.Path.{subst}
use mbench.MemLat.Setup.{Returned}
use mbench.MemLat.Setup.Invariant.{Cell}
use mbench.MemLat.Setup.Closed.{Cleared}
use mbench.MemLat.Loops.Fill.{OnRing, fill-Track, Cell-apart}
use mbench.MemLat.Parallel.Fills.{Links, fill_steps-Links}
use mbench.MemLat.Phases.{Chance, ptrs, fill_phases, setup_threads, unset, parallel_test}
use mbench.MemLat.Phases.Whole.{Team, All-Occurs}
use mbench.MemLat.Phases.Threads.{setup_threads-Done}
use mbench.MemLat.Phases.Rings.{HasRing, InShare, share-apart, Cell-InShare, ptrs_share}

module _ (past : ℕ → ℕ → Bool) (ptr kb omp stride default_loop : ℕ) (wide : 16 ≤ stride)
    (fits : ptr + kb * 1024 * omp < 2 ^ 64) (int_fits : omp * kb < 2 ^ 31) (threads : 0 < omp)
    (rs : ℕ → Returned)
    (rings : (i : ℕ) → i < omp → HasRing (ptr + i * (kb * 1024)) (kb * 1024) stride (rs i))
    (w : Mem)
    (own : (i : ℕ) → i < omp → (b : ℕ) → InShare ptr (kb * 1024) i b → w b ≡ (rs i).mem b) where
  -- A link of some thread's ring.
  abbrev pub Link : ℕ → Type 0
  Link q = (i : ℕ) × (i < omp) × OnRing (rs i).mem (ptr + i * (kb * 1024)) q

  cell :
      (i q : ℕ)
      → i < omp
      → OnRing (rs i).mem (ptr + i * (kb * 1024)) q
      → Cell (ptr + i * (kb * 1024)) (kb * 1024) stride q
  cell i q lt (j, e) =
      let (k, p, ring) = rings i lt in
      subst (Cell (ptr + i * (kb * 1024)) (kb * 1024) stride) e (ring.on j)

  in_share :
      (i q : ℕ)
      → i < omp
      → OnRing (rs i).mem (ptr + i * (kb * 1024)) q
      → InShare ptr (kb * 1024) i q
  in_share i q lt o = Cell-InShare ptr (kb * 1024) stride i q (omega arith) (cell i q lt o)

  closed : (q : ℕ) → Link q → Link (w q)
  closed q (i, lt, (j, e)) =
      (i, lt, (suc j, ap (rs i).mem e ∙ sym (own i lt q (in_share i q lt (j, e)))))

  beside :
      (i q : ℕ)
      → Cell (ptr + i * (kb * 1024)) (kb * 1024) stride q
      → InShare ptr (kb * 1024) i (q + 8)
  beside i q (n, lt, e) = (omega arith, grind arith)

  apart : (q b : ℕ) → Link q → Link b → q + 8 ≢ b
  apart q b (i, li, oq) (j, lj, ob) = elim (ℕ_discrete i j) [
    | yes e ↦
        Cell-apart (ptr + i * (kb * 1024)) (kb * 1024) stride q b wide (cell i q li oq)
          (subst (λ k. Cell (ptr + k * (kb * 1024)) (kb * 1024) stride b) (sym e) (cell j b lj ob))
    | no ne ↦
        share-apart ptr (kb * 1024) i j (q + 8) b ne (beside i q (cell i q li oq))
          (in_share j b lj ob)
  ]

  start_Link : (i : ℕ) → i < omp → Link (ptr + i * (kb * 1024))
  start_Link i lt = (i, lt, (0, refl))

  fill_phases-Links :
      (fills : List ℕ)
      → All (λ i. i < omp) fills
      → Links Link w closed apart (
          fill_phases past ptr kb omp stride default_loop
            (ptrs past ptr kb omp stride default_loop)
            fills
            w)
  unfolding fill_phases
  fill_phases-Links fills below =
      (fill_steps-Links Link w closed apart omp fills _ (ptrs past ptr kb omp stride default_loop)
        below (fill-Track Link w closed apart ptr default_loop (1000 * 10) first).same
        (λ i lt.
          subst Link (sym (ptrs_share past ptr kb omp stride default_loop i int_fits fits lt))
            (start_Link i lt))).0
    where
      first : Link ptr
      first =
          let e : ptr + 0 * (kb * 1024) ≡ ptr = omega arith in subst Link e (start_Link 0 threads)

  -- The chase of thread `i` in the memory afterwards.
  fill_phases-chase :
      (fills : List ℕ)
      → All (λ i. i < omp) fills
      → (i k : ℕ) → i < omp
      → chase
          (fill_phases past ptr kb omp stride default_loop
            (ptrs past ptr kb omp stride default_loop)
            fills
            w)
          k
          (ptr + i * (kb * 1024))
        ≡ chase (rs i).mem k (ptr + i * (kb * 1024))
  fill_phases-chase fills below i zero lt = refl
  fill_phases-chase fills below i (suc k) lt =
      ap
        (fill_phases past ptr kb omp stride default_loop (ptrs past ptr kb omp stride default_loop)
          fills w)
        (fill_phases-chase fills below i k lt)
      ∙ fill_phases-Links fills below _ (i, lt, (k, refl))
      ∙ own i lt _ (in_share i _ lt (k, refl))

-- If `parallel_test` ends, for at least one thread, a stride of 16 or more, cleared shares that
-- hold a segment, a region at a nonzero address that ends below 2^64, and a product of threads and
-- KB a thread below 2^31, and if each thread makes its setup once, then the chase of each thread
-- still runs along the ring that its setup made, whatever the order of the setups and of the steps
-- of the threads' fills.
pub parallel_test-HasRing :
    (past : ℕ → ℕ → Bool) (ptr kb omp stride default_loop : ℕ)
    → 0 < ptr
    → 16 ≤ stride
    → 0 < kb * 1024 / stride
    → ptr + kb * 1024 * omp < 2 ^ 64
    → omp * kb < 2 ^ 31
    → 0 < omp
    → (ch : Chance) (m m' : Mem) (rs : ℕ → Returned) → Team omp ch.setups
    → Distinct ch.setups
    → All (λ i. i < omp) ch.fills
    → ((i : ℕ) → i < omp → Cleared (ptr + i * (kb * 1024)) (kb * 1024) stride m)
    → parallel_test past ptr kb omp stride default_loop ch m ≡ some (rs, m')
    → (i : ℕ) → i < omp
    → HasRing (ptr + i * (kb * 1024)) (kb * 1024) stride (rs i)
      × ((k : ℕ) → chase m' k (ptr + i * (kb * 1024)) ≡ chase (rs i).mem k (ptr + i * (kb * 1024)))
unfolding parallel_test
parallel_test-HasRing past ptr kb omp stride default_loop placed wide segs fits int_fits threads ch
      m m' rs team once below c e i lt =
    let ((w, qs), se, re) =
      >>=-eq-some
        (setup_threads past ptr kb omp stride default_loop ch.urandom ch.setups m
          (unset past ptr kb omp stride default_loop m))
        _ e in
    let done =
      setup_threads-Done past ptr kb omp stride default_loop placed (omega arith) segs fits int_fits
        threads ch.urandom ch.setups m w _ qs once team.members
        (λ j o. c j (All-Occurs (λ k. k < omp) j ch.setups team.members o)) se in
    let rings : (j : ℕ) → j < omp → HasRing (ptr + j * (kb * 1024)) (kb * 1024) stride (qs j) =
      λ j lj. (done j).ring (team.complete j lj) in
    subst
      (λ x.
        HasRing (ptr + i * (kb * 1024)) (kb * 1024) stride (x.0 i)
        × ((k : ℕ)
            → chase x.1 k (ptr + i * (kb * 1024)) ≡ chase (x.0 i).mem k (ptr + i * (kb * 1024))))
      (eq_of_some re)
      (
        rings i lt,
        λ k.
            fill_phases-chase past ptr kb omp stride default_loop wide fits int_fits threads qs
              rings w (λ j lj. (done j).own (team.complete j lj)) ch.fills below i k lt,
      )
