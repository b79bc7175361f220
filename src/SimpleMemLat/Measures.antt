-- ===== src/SimpleMemLat/Measures.antt =====
-- What simpleMemLatChecker.c has linked when it measures, and where the reads end.
use mbench.Prelude.{
  ℕ, ◌+◌, ◌*◌, ◌/◌, ◌%◌, ◌^◌, ◌≤◌, ◌<◌, ◌≡◌, ◌≢◌, refl, sym, ap, ◌∙◌, Bool, true, false, ◌||◌, some,
  List, [], ◌∷◌, arith, ltb, leb, ◌==◌, to_int, of_int, Mem, chase, Bool-cases, Option-cases, inl,
  inr,
}
use mathlib.Core.Path.{subst}
use mbench.Floats.{Floats}
use mbench.MemLat.Setup.{Returned, Outcome, returned, exit, sigfpe}
use mbench.MemLat.Setup
use mbench.MemLat.Setup.Closed.{Cleared, Ring, setup_rnd-Ring}
use mbench.MemLat.Loops
use mbench.MemLat.Loops.Read.{measure_rnd_read_ring}
use mbench.MemLat.Parallel.{clear_range}
use mbench.SimpleMemLat.{
  stop_test, setup_rnd, no_memory, too_small, bad_ratio, measured, Machine, Config, read_after,
  measure_rdlat_user, checked,
}

-- A ring in the region, and the value read along it.
pub record Sound (n_bytes stride ptr : ℕ) (r : Returned) (paddr : ℕ) : Type 0 where
  pub waste : ℕ
  pub length : ℕ
  pub ring : Ring ptr n_bytes stride waste r length
  pub last : paddr ≡ chase r.mem ((100 * 100 * 100 + 1) % length) ptr

clear_range-Cleared :
    (ptr n_bytes stride : ℕ) (m : Mem)
    → 8 ≤ stride
    → Cleared ptr n_bytes stride (clear_range m ptr n_bytes)
clear_range-Cleared ptr n_bytes stride m wide i lt =
    let low : leb ptr (ptr + i * stride) ≡ true = ground arith in
    let high : ltb (ptr + i * stride) (ptr + n_bytes) ≡ true = inside (grind arith) in
    rw (low, high) refl
  where
    inside : i * stride < n_bytes → ltb (ptr + i * stride) (ptr + n_bytes) ≡ true
    inside h = ground arith

sigfpe_returned : {r : Returned} → sigfpe ≢ returned r
sigfpe_returned e = cc

exit_returned : {r : Returned} → exit ≢ returned r
exit_returned e = cc

pos : (n : ℕ) → (n == 0) ≡ false → 0 < n
pos n e = ground arith

-- `setup_rnd` returns only where there is a segment.
some_segs :
    (stops : ℕ → Bool) (addr size seg_size : ℕ) (m : Mem) (rnds : List ℕ) (r : Returned)
    → 8 ≤ seg_size
    → Setup.setup_rnd stops addr size seg_size m (some rnds) ≡ returned r
    → 0 < size / seg_size
unfolding Setup.setup_rnd Setup.first_round
some_segs stops addr size seg_size m [] r wide e =
    let test : (seg_size == 0) ≡ false = ground arith in absurd (exit_returned (rw test at e))
some_segs stops addr size seg_size m (rnd ∷ rnds) r wide e =
    let test : (seg_size == 0) ≡ false = ground arith in
    elim (Bool-cases (size / seg_size == 0)) [
      | inl z ↦ absurd (sigfpe_returned (rw (test, z) at e))
      | inr nz ↦ pos (size / seg_size) nz
    ]

setup_rnd-Sound :
    (past_ratio : ℕ → Bool) (ptr n_bytes stride : ℕ) (m : Mem) (rnds : List ℕ) (r : Returned)
    → 0 < ptr
    → 8 ≤ stride
    → n_bytes < 2 ^ 64
    → setup_rnd past_ratio ptr n_bytes stride (clear_range m ptr n_bytes) rnds ≡ returned r
    → Sound n_bytes stride ptr r (Loops.measure_rnd_read r.mem ptr 100 100)
setup_rnd-Sound past_ratio ptr n_bytes stride m rnds r placed wide fits e =
    let (p, ring) =
      setup_rnd-Ring (stop_test past_ratio) ptr n_bytes stride placed wide
        (some_segs (stop_test past_ratio) ptr n_bytes stride _ rnds r wide e) (grind arith)
        (clear_range m ptr n_bytes) rnds r (clear_range-Cleared ptr n_bytes stride m wide) e in
    record {
      waste = _;
      length = p;
      ring = ring;
      last = (measure_rnd_read_ring r.mem ptr p 100 100 ring.period).1;
    }

module _ (F : Floats) (past : F.R → ℕ → ℕ → Bool) where
  open F use {R, lit, ltf}

  read_after_measured :
      (ptr n : ℕ) (o : Outcome) {p n' : ℕ} {r : Returned} {v : ℕ}
      → read_after F past ptr n o ≡ measured p n' r v
      → (o ≡ returned r) × (ptr ≡ p) × (n ≡ n') × (Loops.measure_rnd_read r.mem ptr 100 100 ≡ v)
  read_after_measured ptr n (returned q) {p} {n'} {r} {v} e =
      (cc, cc, cc, ap (λ u. Loops.measure_rnd_read u.mem ptr 100 100) (sym same) ∙ value)
    where
      same : q ≡ r
      same = cc

      value : Loops.measure_rnd_read q.mem ptr 100 100 ≡ v
      value = cc
  read_after_measured ptr n exit e = absurd (cc)
  read_after_measured ptr n sigfpe e = absurd (cc)

  user-Sound :
      (n stride : ℕ) (ratio : R) (mach : Machine) {p n' : ℕ} {r : Returned} {v : ℕ}
      → 0 < p
      → n < 2 ^ 64
      → 8 ≤ stride
      → stride < 2 ^ 31
      → measure_rdlat_user F past n stride ratio mach ≡ measured p n' r v
      → Sound n stride p r v × (mach.memalign ≡ some p) × (n ≡ n')
  unfolding measure_rdlat_user
  user-Sound n stride ratio mach {p} {n'} {r} {v} placed fits wide small e =
      elim (Option-cases mach.memalign) [
        | inl left ↦ absurd (no_region (rw (test, left) at e))
        | inr (q, at) ↦ found q at (read_after_measured q n _ (rw (test, at) at e))
      ]
    where
      test : (stride == 0) ≡ false
      test = ground arith

      no_region : no_memory ≢ measured p n' r v
      no_region e = cc

      int : of_int (to_int stride) ≡ stride
      int = ground arith

      found :
          (q : ℕ)
          → mach.memalign ≡ some q
          → (setup_rnd
                (past ratio (n / of_int (to_int stride)))
                q
                n
                (of_int (to_int stride))
                (clear_range mach.mem q n)
                mach.rdrand
              ≡ returned r)
            × (q ≡ p)
            × (n ≡ n')
            × (Loops.measure_rnd_read r.mem q 100 100 ≡ v)
          → Sound n stride p r v × (mach.memalign ≡ some p) × (n ≡ n')
      found q at (ret, same, bytes, value) = (
        subst (Sound n stride p r)
            (ap (λ a. Loops.measure_rnd_read r.mem a 100 100) (sym same) ∙ value)
            (setup_rnd-Sound (past ratio (n / stride)) p n stride mach.mem mach.rdrand r placed wide
              fits
              (subst
                (λ a.
                  setup_rnd (past ratio (n / stride)) a n stride (clear_range mach.mem a n)
                    mach.rdrand
                  ≡ returned r)
                same
                (subst
                  (λ k.
                    setup_rnd (past ratio (n / k)) q n k (clear_range mach.mem q n) mach.rdrand
                    ≡ returned r)
                  int ret))),
        at ∙ ap some same,
        bytes,
      )

  abbrev kb : Config F past → ℕ
  kb g = g.mem_size_per_thread_in_kb * g.scale % 2 ^ 64

  -- If `main` of simpleMemLatChecker.c measures a region at a nonzero address, with a stride from 8
  -- to below 2^31, then the region is where `posix_memalign` put it and has the size that the
  -- options ask for, modulo 2^64; one ring runs through segments of it from its start; and `pos`
  -- is left at the address 1,000,001 loads from there, counted modulo the length of the ring.
  pub checked_links :
      (g : Config F past) (mach : Machine) (ptr n_bytes : ℕ) (r : Returned) (paddr : ℕ)
      → 0 < ptr
      → 8 ≤ g.stride
      → g.stride < 2 ^ 31
      → checked F past g mach ≡ measured ptr n_bytes r paddr
      → Sound n_bytes g.stride ptr r paddr
        × (mach.memalign ≡ some ptr)
        × (4 ≤ kb g)
        × (n_bytes ≡ kb g * 1024 % 2 ^ 64)
  unfolding checked
  checked_links g mach ptr n_bytes r paddr placed wide small e = elim (Bool-cases (ltb (kb g) 4)) [
    | inl low ↦ absurd (few (rw low at e))
    | inr enough ↦ elim (Bool-cases (ltf g.rand_ratio (lit 80 2) || ltf (lit 100 2) g.rand_ratio)) [
      | inl out ↦ absurd (ratio (rw (enough, out) at e))
      | inr fine ↦
          let (sound, at, bytes) =
            user-Sound (kb g * 1024 % 2 ^ 64) g.stride g.rand_ratio mach placed (omega arith) wide
              small (rw (enough, fine) at e) in
          (
            subst (λ n. Sound n g.stride ptr r paddr) bytes sound,
            at,
            at_least (kb g) enough,
            sym bytes,
          )
    ]
  ]
    where
      few : too_small ≢ measured ptr n_bytes r paddr
      few e = cc

      ratio : bad_ratio ≢ measured ptr n_bytes r paddr
      ratio e = cc

      at_least : (n : ℕ) → ltb n 4 ≡ false → 4 ≤ n
      at_least n e = ground arith
