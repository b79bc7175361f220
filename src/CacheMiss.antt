-- ===== src/CacheMiss.antt =====
-- ParallelCacheMiss.c: a random ring, and up to 16 pointers that walk along it together.
pub mod Inside
pub mod Walks
pub mod Options
mod Tests
use mbench.Prelude.{
  ℕ, zero, suc, ◌+◌, ◌*◌, ◌/◌, ◌%◌, ◌^◌, Bool, ◌&&◌, ◌||◌, List, [], ◌∷◌, ltb, ◌==◌, if◌then◌else◌,
  inc64, Mem, store, total,
}

-- The variables of the loop of `setup_rnd`, and the memory.
pub record State : Type 0 where
  pub mem : Mem
  pub pos : ℕ
  pub n_done : ℕ
  pub n_conflict : ℕ

-- `break`, or the state at the loop's test.
pub data Round : Type 0 where
  break : Round
  go : State → Round

-- Where the call is once `random` has given the numbers of the list: still in its loop, back, or
-- at a division by zero.
pub data Outcome : Type 0 where
  looping : State → Outcome
  returned : Mem → Outcome
  sigfpe : Outcome

-- `past_ratio n_done` is the test `n_done > rand_ratio * n_segs`.
module _ (past_ratio : ℕ → Bool) (addr size seg_size : ℕ) where
  abbrev pub n_segs : ℕ
  n_segs = size / seg_size

  abbrev pub target : ℕ → ℕ
  target rnd = addr + rnd % n_segs * seg_size

  -- The loop that clears the segments, from segment `i` on: a free segment points to `addr`. It is
  -- for segments of 8 bytes or more, whose words do not overlap.
  unfoldable pub free_from : ℕ → ℕ → Mem → Mem
  free_from i zero m = m
  free_from i (suc left) m = free_from (suc i) left (store m (addr + i * seg_size) addr)

  unfoldable pub attempt : State → ℕ → Round
  attempt s rnd =
      if s.mem (target rnd) == addr
      then go (record s {
        mem = store s.mem s.pos (target rnd);
        pos = target rnd;
        n_done = inc64 s.n_done;
      })
      else if ltb 10000 s.n_done && past_ratio s.n_done
      then break
      else go (record s { n_conflict = inc64 s.n_conflict })

  -- `*pos = addr` makes the ring.
  unfoldable pub close : State → Outcome
  close s = returned (store s.mem s.pos addr)

  unfoldable pub fill : State → List ℕ → Outcome
  fill s [] = looping s
  fill s (rnd ∷ rnds) = elim (attempt s rnd) [
    | break ↦ close s
    | go s' ↦ let rest = fill s' rnds in if ltb s'.n_done n_segs then rest else close s'
  ]

  abbrev pub start : Mem → State
  start m = record { mem = free_from 0 n_segs m; pos = addr; n_done = 0; n_conflict = 0 }

  unfoldable pub setup_rnd : Mem → List ℕ → Outcome
  setup_rnd m rnds =
      if seg_size == 0 then sigfpe else if n_segs == 0 then sigfpe else fill (start m) rnds

-- Where the pointers begin, `stride` bytes apart.
abbrev pub starts : ℕ → ℕ → ℕ → ℕ
starts paddr stride j = paddr + j * stride

-- How many pointers `RD_ONE` moves in a build with `-DPRL=prl`: one for a value not listed.
unfoldable pub pointers : ℕ → ℕ
pointers prl =
    if prl == 16 || prl == 12 || prl == 8 || prl == 6 || prl == 4 || prl == 2 then prl else 1

-- `RD_ONE` and its repetitions. The family holds `p1` to `p16`, at 0 to 15.
module _ (m : Mem) (prl : ℕ) where
  pub rd_one : (ℕ → ℕ) → ℕ → ℕ
  rd_one p j = if ltb j (pointers prl) then m (p j) else p j

  pub rd_five : (ℕ → ℕ) → ℕ → ℕ
  rd_five p = rd_one (rd_one (rd_one (rd_one (rd_one p))))

  pub rd_ten : (ℕ → ℕ) → ℕ → ℕ
  rd_ten p = rd_five (rd_five p)

  pub rd_fifty : (ℕ → ℕ) → ℕ → ℕ
  rd_fifty p = rd_ten (rd_ten (rd_ten (rd_ten (rd_ten p))))

  pub rd_hundred : (ℕ → ℕ) → ℕ → ℕ
  rd_hundred p = rd_fifty (rd_fifty p)

  pub read_inner : ℕ → (ℕ → ℕ) → ℕ → ℕ
  read_inner zero p = p
  read_inner (suc n) p = read_inner n (rd_hundred p)

  pub read_outer : ℕ → ℕ → (ℕ → ℕ) → ℕ → ℕ
  read_outer zero itr2 p = p
  read_outer (suc itr1) itr2 p = read_outer itr1 itr2 (read_inner itr2 p)

  -- The new `*paddr`: it adds the words at all 16 pointers, whatever `prl` is.
  pub measure_rnd_read : ℕ → ℕ → ℕ → ℕ → ℕ
  measure_rnd_read paddr stride itr1 itr2 =
      let p = read_outer itr1 itr2 (starts paddr stride) in
      (paddr + total 8 (λ j. m (p j)) + total 8 (λ j. m (p (j + 8)))) % 2 ^ 64
