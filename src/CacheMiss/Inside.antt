-- ===== src/CacheMiss/Inside.antt =====
-- Every link that `setup_rnd` of ParallelCacheMiss.c makes leads to the start of a segment.
use mbench.Prelude.{
  ℕ, zero, suc, ◌+◌, ◌*◌, ◌/◌, ◌%◌, ◌≤◌, ◌<◌, ◌≡◌, refl, sym, inl, inr, Bool, false, ◌&&◌, List, [],
  ◌∷◌, arith, ℕ_discrete, ltb, ◌==◌, if◌then◌else◌, inc64, Bool-cases, Mem, store, store_self,
  store-ne, chase,
}
use mathlib.Core.Path.{subst}
use native.Mathlib.Nat.{mod-lt}
use mbench.MemLat.Setup.Invariant.{Cell}
use mbench.CacheMiss.{
  State, Outcome, looping, returned, sigfpe, target, free_from, attempt, close, fill, start,
  setup_rnd,
}

-- The first word of each segment is the address of a segment.
abbrev pub Inside : ℕ → ℕ → ℕ → Mem → Type 0
Inside addr size seg_size m = (a : ℕ) → Cell addr size seg_size a → Cell addr size seg_size (m a)

-- It holds where the call stands: in its loop, or after it.
abbrev pub InsideNow : ℕ → ℕ → ℕ → Outcome → Type 0
InsideNow addr size seg_size (looping s) = Inside addr size seg_size s.mem
InsideNow addr size seg_size (returned m) = Inside addr size seg_size m
InsideNow addr size seg_size sigfpe = ⊥

module _ (past_ratio : ℕ → Bool) (addr size seg_size : ℕ) (some_segs : 0 < size / seg_size) where
  -- A word that points to `addr` is left so, and each segment from `i` on is made so.
  free_from_keeps :
      (i left : ℕ) (m : Mem) (a : ℕ)
      → m a ≡ addr
      → free_from past_ratio addr size seg_size i left m a ≡ addr
  unfolding free_from
  free_from_keeps i zero m a e = e
  free_from_keeps i (suc left) m a e = free_from_keeps (suc i) left _ a (ground arith)

  free_from_segs :
      (i left j : ℕ) (m : Mem)
      → i ≤ j
      → j < i + left
      → free_from past_ratio addr size seg_size i left m (addr + j * seg_size) ≡ addr
  unfolding free_from
  free_from_segs i zero j m lo hi = absurd (omega arith)
  free_from_segs i (suc left) j m lo hi = elim (ℕ_discrete i j) [
    | yes e ↦ free_from_keeps (suc i) left _ _ (here e)
    | no ne ↦ free_from_segs (suc i) left j _ (omega arith) (omega arith)
  ]
    where
      here : i ≡ j → store m (addr + i * seg_size) addr (addr + j * seg_size) ≡ addr
      here e =
          subst (λ k. store m (addr + i * seg_size) addr (addr + k * seg_size) ≡ addr) e
            (store_self m (addr + i * seg_size) addr)

  base-Cell : Cell addr size seg_size addr
  base-Cell = (0, some_segs, omega arith)

  start-Inside : (m : Mem) → Inside addr size seg_size (start past_ratio addr size seg_size m).mem
  start-Inside m a (j, lt, e) =
      let free = free_from_segs 0 (size / seg_size) j m (omega arith) (omega arith) in
      subst (Cell addr size seg_size) (sym (rw e free)) base-Cell

  store-Inside :
      (m : Mem) (p v : ℕ)
      → Inside addr size seg_size m
      → Cell addr size seg_size v
      → Inside addr size seg_size (store m p v)
  store-Inside m p v ok c a ca = elim (ℕ_discrete p a) [
    | yes e ↦ let at : v ≡ store m p v a = ground arith in subst (Cell addr size seg_size) at c
    | no ne ↦ subst (Cell addr size seg_size) (sym (store-ne m p v a ne)) (ok a ca)
  ]

  target-Cell : (rnd : ℕ) → Cell addr size seg_size (target past_ratio addr size seg_size rnd)
  target-Cell rnd = (rnd % (size / seg_size), omega (arith, mod-lt rnd some_segs), refl)

  fill-InsideNow :
      (s : State) (rnds : List ℕ)
      → Inside addr size seg_size s.mem
      → InsideNow addr size seg_size (fill past_ratio addr size seg_size s rnds)
  unfolding fill attempt close
  fill-InsideNow s [] ok = ok
  fill-InsideNow s (rnd ∷ rnds) ok =
      elim (Bool-cases (s.mem (target past_ratio addr size seg_size rnd) == addr)) [
        | inl free ↦
            rw (free, InsideNow)
              (next (λ u. fill-InsideNow u rnds)
                (record s {
                  mem = store s.mem s.pos (target past_ratio addr size seg_size rnd);
                  pos = target past_ratio addr size seg_size rnd;
                  n_done = inc64 s.n_done;
                })
                (store-Inside s.mem s.pos _ ok (target-Cell rnd)))
        | inr taken ↦ elim (Bool-cases (ltb 10000 s.n_done && past_ratio s.n_done)) [
          | inl stop ↦ rw (taken, stop, InsideNow) (store-Inside s.mem s.pos addr ok base-Cell)
          | inr on ↦
              rw (taken, on, InsideNow)
                (next (λ u. fill-InsideNow u rnds) (record s { n_conflict = inc64 s.n_conflict })
                  ok)
        ]
      ]
    where
      next :
          ((u : State)
            → Inside addr size seg_size u.mem
            → InsideNow addr size seg_size (fill past_ratio addr size seg_size u rnds))
          → (s' : State) → Inside addr size seg_size s'.mem
          → InsideNow addr size seg_size (
              if ltb s'.n_done (size / seg_size)
              then fill past_ratio addr size seg_size s' rnds
              else close past_ratio addr size seg_size s')
      next ih s' ok' = elim (Bool-cases (ltb s'.n_done (size / seg_size))) [
        | inl more ↦ rw (more, InsideNow) (ih s' ok')
        | inr done ↦ rw (done, InsideNow) (store-Inside s'.mem s'.pos addr ok' base-Cell)
      ]

-- Where the region holds at least one segment, of 8 bytes or more, however many numbers `random`
-- has given, the first word of every segment is the address of a segment, whatever the memory was:
-- in the loop and after it, with a division by zero never reached.
pub setup_rnd-InsideNow :
    (past_ratio : ℕ → Bool) (addr size seg_size : ℕ) (m : Mem) (rnds : List ℕ)
    → 8 ≤ seg_size
    → 0 < size / seg_size
    → InsideNow addr size seg_size (setup_rnd past_ratio addr size seg_size m rnds)
unfolding setup_rnd
setup_rnd-InsideNow past_ratio addr size seg_size m rnds wide some =
    let width : (seg_size == 0) ≡ false = ground arith in
    let segs : (size / seg_size == 0) ≡ false = ground arith in
    rw (width, segs)
      (fill-InsideNow past_ratio addr size seg_size some (start past_ratio addr size seg_size m)
        rnds (start-Inside past_ratio addr size seg_size some m))

-- A chase from a segment never leaves the segments.
pub chase-Inside :
    (addr size seg_size a k : ℕ) (m : Mem)
    → Inside addr size seg_size m
    → Cell addr size seg_size a
    → Cell addr size seg_size (chase m k a)
chase-Inside addr size seg_size a zero m ok c = c
chase-Inside addr size seg_size a (suc k) m ok c = ok _ (chase-Inside addr size seg_size a k m ok c)
