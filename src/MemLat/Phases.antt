-- ===== src/MemLat/Phases.antt =====
-- The tests that `main` of mem_lat.c runs on the region it has allocated, and `main` from its
-- first `memset` on. `none` stands for a program that has ended early. The read loops change no
-- memory, and a thread's copy of `pos` is gone when it ends, so that they leave no trace here.
pub mod Rings
pub mod Threads
pub mod Whole
pub mod Fill
mod Tests
use mbench.Prelude.{
  ℕ, ◌+◌, ◌*◌, ◌/◌, Bool, Option, none, some, List, [], ◌∷◌, Mem, update, ◌>>=◌, ◌%◌, ◌^◌, to_int,
  of_int,
}
use mbench.MemLat.Setup.{Returned, Outcome, returned, exit, sigfpe, stop_test, setup_rnd}
use mbench.MemLat.Loops.{measure_rnd_fill}
use mbench.MemLat.Parallel.{clear_range, parallel_memset, fill_steps}

-- What the outside decides in one test: the numbers that each thread reads from /dev/urandom,
-- the order of the threads' setups, which touch no common word, and the order of the steps of the
-- threads that fill together.
pub record Chance : Type 0 where
  pub urandom : ℕ → Option (List ℕ)
  pub setups : List ℕ
  pub fills : List ℕ

abbrev pub kept : Outcome → Option Returned
kept (returned r) = some r
kept exit = none
kept sigfpe = none

-- `past n_segs n_done` is the test `n_done > rand_ratio * n_segs`.
abbrev pub setup_at : (ℕ → ℕ → Bool) → ℕ → ℕ → ℕ → Mem → Option (List ℕ) → Option Returned
setup_at past addr size stride m rnds =
    kept (setup_rnd (stop_test (past (size / stride)) size) addr size stride m rnds)

-- What the three tests have recorded, and the memory at the end.
pub record Report : Type 0 where
  pub simple : Returned
  pub threads : ℕ → Returned
  pub modify : Returned
  pub mem : Mem

-- `kb` is `mem_size_per_thread_in_kb`, the size of the share of each of the `omp` threads.
module _ (past : ℕ → ℕ → Bool) (ptr kb omp stride default_loop : ℕ) where
  abbrev pub n_bytes : ℕ
  n_bytes = kb * 1024 * omp

  -- `ptr + i * mem_size_per_thread_in_kb * 1024L`, where the first product is one of `int`s.
  unfoldable pub ptrs : ℕ → ℕ
  ptrs i = (ptr + of_int (to_int (i * kb)) * 1024) % 2 ^ 64

  -- Each thread `i` of the list, in that order, sets its `ptrs[i]` and clears its share.
  pub first_memset : List ℕ → Mem → Mem
  first_memset [] m = m
  first_memset (i ∷ order) m = first_memset order (clear_range m (ptrs i) (kb * 1024))

  -- A single fill from `ptr`, then one by several threads from the starts given.
  pub fill_phases : (ℕ → ℕ) → List ℕ → Mem → Mem
  fill_phases starts fills m =
      (fill_steps fills (measure_rnd_fill m ptr default_loop (1000 * 10)).0 starts).0

  pub simple_test : Chance → Mem → Option (Returned × Mem)
  simple_test ch m = do
    r ← setup_at past ptr n_bytes stride m (ch.urandom 0)
    some (r, fill_phases (λ i. ptr) ch.fills r.mem)

  -- The setups of the threads `idx` of the list; the family holds what each has recorded.
  pub setup_threads :
      (ℕ → Option (List ℕ)) → List ℕ → Mem → (ℕ → Returned) → Option (Mem × (ℕ → Returned))
  setup_threads urandom [] m rs = some (m, rs)
  setup_threads urandom (idx ∷ order) m rs = do
    r ← setup_at past (ptrs idx) (n_bytes / omp) stride m (urandom idx)
    setup_threads urandom order r.mem (update rs idx r)

  abbrev pub unset : Mem → ℕ → Returned
  unset m idx = record { mem = m; debug_ret = (0, 0, 0, 0) }

  pub parallel_test : Chance → Mem → Option ((ℕ → Returned) × Mem)
  parallel_test ch m = do
    (m', rs) ← setup_threads ch.urandom ch.setups m (unset m)
    some (rs, fill_phases ptrs ch.fills m')

  pub modify_read : Chance → Mem → Option (Returned × Mem)
  modify_read ch m = do
    r ← setup_at past ptr n_bytes stride m (ch.urandom 0)
    some (r, (measure_rnd_fill r.mem ptr default_loop (1000 * 10)).0)

  -- The lists are the orders of the threads in the three parallel regions that clear memory.
  pub main : List ℕ × List ℕ × List ℕ → Chance × Chance × Chance → Mem → Option Report
  main (page_faults, second, third) (for_simple, for_parallel, for_modify) m = do
    (simple, m1) ← simple_test for_simple (first_memset page_faults m)
    (threads, m2) ← parallel_test for_parallel (parallel_memset ptr n_bytes omp second m1)
    (modify, m3) ← modify_read for_modify (parallel_memset ptr n_bytes omp third m2)
    some (record { simple = simple; threads = threads; modify = modify; mem = m3 })
