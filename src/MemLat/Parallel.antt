-- ===== src/MemLat/Parallel.antt =====
-- The parallel regions of mem_lat.c: threads that clear their slices, and threads that fill.
pub mod Clears
pub mod Fills
mod Tests
use mbench.Prelude.{ℕ, ◌+◌, ◌*◌, ◌/◌, ◌&&◌, List, [], ◌∷◌, ltb, leb, if◌then◌else◌, Mem, update}
use mbench.MemLat.Loops.{wr_one}

-- `memset(p, 0, len)` on the words of the range.
abbrev pub clear_range : Mem → ℕ → ℕ → Mem
clear_range m p len b = if leb p b && ltb b (p + len) then 0 else m b

-- Each thread `i` of the list, in that order, clears `len` bytes at `base + i * len`.
unfoldable pub memset_slices : ℕ → ℕ → List ℕ → Mem → Mem
memset_slices base len [] m = m
memset_slices base len (i ∷ order) m =
    memset_slices base len order (clear_range m (base + i * len) len)

-- `parallel_memset`: the slices are `size / omp_num_threads` bytes.
unfoldable pub parallel_memset : ℕ → ℕ → ℕ → List ℕ → Mem → Mem
parallel_memset addr size omp_num_threads order = memset_slices addr (size / omp_num_threads) order

-- Threads that run `WR_ONE` at the same time on shared memory: the list says which thread makes
-- the next step, and the family holds the `q` of each.
unfoldable pub fill_steps : List ℕ → Mem → (ℕ → ℕ) → Mem × (ℕ → ℕ)
fill_steps [] m qs = (m, qs)
fill_steps (i ∷ sched) m qs = let (m', q) = wr_one (m, qs i) in fill_steps sched m' (update qs i q)
