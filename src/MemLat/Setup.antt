-- ===== src/MemLat/Setup.antt =====
-- `setup_rnd` of mem_lat.c: links the segments of a cleared region into a random ring.
pub mod Invariant
pub mod Closed
pub mod Progress
pub mod Frame
pub mod Tests
use mbench.Prelude.{
  ℕ, ◌+◌, ◌*◌, ◌/◌, ◌%◌, ◌^◌, Bool, ◌&&◌, Option, none, some, List, [], ◌∷◌, ltb, ◌==◌,
  if◌then◌else◌, inc64, Mem, store,
}

-- The variables of the loop, and the memory that it writes.
pub record State : Type 0 where
  pub mem : Mem
  pub pos : ℕ
  pub n_done : ℕ
  pub n_conflict : ℕ

-- What one round does: `break`, or go on to the loop's test.
pub data Round : Type 0 where
  break : Round
  go : State → Round

-- How the call ends: it returns with what it recorded, `exit(-1)`, or a division by zero.
-- `debug_ret` is `debug_ret[myidx]`.
pub record Returned : Type 0 where
  pub mem : Mem
  pub debug_ret : ℕ × ℕ × ℕ × ℕ

pub data Outcome : Type 0 where
  returned : Returned → Outcome
  exit : Outcome
  sigfpe : Outcome

-- Whether a conflict ends the loop: `size > (0x01L << 28) && n_done > rand_ratio * n_segs`, the
-- second of which, in floating point, is `past_ratio n_done`.
abbrev pub stop_test : (ℕ → Bool) → ℕ → ℕ → Bool
stop_test past_ratio size n_done = ltb (2 ^ 28) size && past_ratio n_done

-- `stops n_done` is that test; simpleMemLatChecker.c has the loop with another one.
module _ (stops : ℕ → Bool) (addr size seg_size : ℕ) where
  abbrev pub n_segs : ℕ
  n_segs = size / seg_size

  abbrev pub target : ℕ → ℕ
  target rnd = addr + rnd % n_segs * seg_size

  -- One round, for segments of 8 bytes or more: those of fewer overlap, and a store changes the
  -- words of several.
  unfoldable pub attempt : State → ℕ → Round
  attempt s rnd =
      if s.mem (target rnd) == 0
      then go (record s {
        mem = store s.mem s.pos (target rnd);
        pos = target rnd;
        n_done = inc64 s.n_done;
      })
      else if stops s.n_done
      then break
      else go (record s { n_conflict = inc64 s.n_conflict })

  -- The loop, for segments of 8 bytes or more. The list holds what /dev/urandom returns; at its end
  -- `fread` fails.
  unfoldable pub fill : State → List ℕ → Option State
  fill s [] = none
  fill s (rnd ∷ rnds) = elim (attempt s rnd) [
    | break ↦ some s
    | go s' ↦ let rest = fill s' rnds in if ltb s'.n_done n_segs then rest else some s'
  ]

  abbrev pub start : Mem → State
  start m = record { mem = m; pos = addr; n_done = 0; n_conflict = 0 }

  -- `*pos = addr` makes the ring.
  unfoldable pub close : State → Returned
  close s = record {
    mem = store s.mem s.pos addr;
    debug_ret = (s.n_done, s.n_conflict, s.pos, store s.mem s.pos addr s.pos);
  }

  abbrev pub ended : Option State → Outcome
  ended none = exit
  ended (some s) = returned (close s)

  unfoldable pub first_round : Mem → List ℕ → Outcome
  first_round m [] = exit
  first_round m (rnd ∷ rnds) = if n_segs == 0 then sigfpe else ended (fill (start m) (rnd ∷ rnds))

  -- `none` stands for an `fopen` that fails.
  unfoldable pub setup_rnd : Mem → Option (List ℕ) → Outcome
  setup_rnd m none = if seg_size == 0 then sigfpe else exit
  setup_rnd m (some rnds) = if seg_size == 0 then sigfpe else first_round m rnds

  -- How often the loop picked the segment that it stood on, which links nothing new.
  pub self_pick : State → ℕ → ℕ
  self_pick s rnd = if s.mem (target rnd) == 0 then (if target rnd == s.pos then 1 else 0) else 0

  pub self_picks : State → List ℕ → ℕ
  self_picks s [] = 0
  self_picks s (rnd ∷ rnds) = elim (attempt s rnd) [
    | break ↦ 0
    | go s' ↦
        let rest = self_picks s' rnds in
        self_pick s rnd + (if ltb s'.n_done n_segs then rest else 0)
  ]
