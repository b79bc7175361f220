-- ===== src/MemLat/Phases/Rings.antt =====
-- Which rings the setups of the three tests leave, by themselves and from thread to thread.
use mbench.Prelude.{
  ℕ, ◌+◌, ◌*◌, ◌/◌, ◌%◌, ◌^◌, ◌≤◌, ◌<◌, ◌≡◌, ap, ◌≢◌, Bool, false, Option, none, some, List, arith,
  dec_lt, eq_of_some, Mem, ◌==◌, to_int, of_int,
}
use mbench.MemLat.Setup.{stop_test, Returned, Outcome, returned, exit, sigfpe, setup_rnd}
use mbench.MemLat.Setup.Invariant.{Cell}
use mbench.MemLat.Setup.Closed.{Cleared, Ring, setup_rnd-Ring, exit-ne-returned}
use mbench.MemLat.Phases.{kept, setup_at, ptrs}

-- A ring in the segments of the region, of whatever length and number of wasted rounds.
abbrev pub HasRing : ℕ → ℕ → ℕ → Returned → Type 0
HasRing addr size stride r = (k : ℕ) × (p : ℕ) × Ring addr size stride k r p

pub kept-some : (o : Outcome) (r : Returned) → kept o ≡ some r → o ≡ returned r
kept-some (returned q) r e = ap returned (eq_of_some e)
kept-some exit r e = absurd (cc)
kept-some sigfpe r e = absurd (cc)

returned-ne-none :
    (stops : ℕ → Bool) (addr size seg_size : ℕ)
    → 8 ≤ seg_size
    → (m : Mem) (r : Returned) → setup_rnd stops addr size seg_size m none ≢ returned r
unfolding setup_rnd
returned-ne-none stops addr size seg_size wide m r e =
    let test : (seg_size == 0) ≡ false = ground arith in exit-ne-returned (rw test at e)

module _ (past : ℕ → ℕ → Bool) (stride : ℕ) (wide : 8 ≤ stride) where
  pub setup_at-HasRing :
      (addr size : ℕ) (m : Mem) (rnds : Option (List ℕ)) (r : Returned)
      → 0 < addr
      → 0 < size / stride
      → size / stride < 2 ^ 64
      → Cleared addr size stride m
      → setup_at past addr size stride m rnds ≡ some r
      → HasRing addr size stride r
  setup_at-HasRing addr size m none r at segs fits c e = absurd (
      returned-ne-none (stop_test (past (size / stride)) size) addr size stride wide m r
        (kept-some _ r e))
  setup_at-HasRing addr size m (some rnds) r at segs fits c e =
      let (p, ring) =
        setup_rnd-Ring (stop_test (past (size / stride)) size) addr size stride at wide segs fits m
          rnds r c (kept-some _ r e) in
      (_, p, ring)

pub share_div : (share omp : ℕ) → 0 < omp → share * omp / omp ≡ share
share_div share omp some_threads = grind arith

-- Where no product of `int`s overflows, the start that the code computes is that of the share.
pub ptrs_share :
    (past : ℕ → ℕ → Bool) (ptr kb omp stride default_loop i : ℕ)
    → omp * kb < 2 ^ 31
    → ptr + kb * 1024 * omp < 2 ^ 64
    → i < omp
    → ptrs past ptr kb omp stride default_loop i ≡ ptr + i * (kb * 1024)
unfolding ptrs
ptrs_share past ptr kb omp stride default_loop i int_fits fits lt =
    let product : of_int (to_int (i * kb)) ≡ i * kb = as_int (i * kb) (grind arith) in
    rw product (in_range (i * kb) (grind arith))
  where
    as_int : (p : ℕ) → p < 2 ^ 31 → of_int (to_int p) ≡ p
    as_int p small = ground arith

    in_range : (p : ℕ) → p ≤ omp * kb → (ptr + i * kb * 1024) % 2 ^ 64 ≡ ptr + i * (kb * 1024)
    in_range p le = grind arith

-- An address of thread `i`'s share.
abbrev pub InShare : ℕ → ℕ → ℕ → ℕ → Type 0
InShare ptr share i b = (ptr + i * share ≤ b) × (b < ptr + i * share + share)

pub share-apart :
    (ptr share i j a b : ℕ) → i ≢ j → InShare ptr share i a → InShare ptr share j b → a ≢ b
share-apart ptr share i j a b ne ia jb e = elim (dec_lt i j) [
  | yes lt ↦ absurd (grind arith)
  | no ge ↦ absurd (grind arith)
]

pub Cell-InShare :
    (ptr share stride i a : ℕ)
    → 8 ≤ stride
    → Cell (ptr + i * share) share stride a
    → InShare ptr share i a
Cell-InShare ptr share stride i a wide (j, lt, e) = (omega arith, grind arith)
