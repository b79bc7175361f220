-- ===== src/CacheMiss/Options/Measures.antt =====
-- What a run of ParallelCacheMiss.c has made when it measures.
use mbench.Prelude.{
  ℕ, ◌*◌, ◌/◌, ◌^◌, ◌%◌, ◌≤◌, ◌<◌, ◌≡◌, ◌≢◌, ap, ◌∙◌, sym, Bool, false, ◌||◌, some, List, arith,
  ltb, ◌==◌, to_int, of_int, Mem, Bool-cases, Option-cases, inl, inr,
}
use mathlib.Core.Path.{subst}
use mbench.Floats.{Floats}
use mbench.CacheMiss.{Outcome, looping, returned, sigfpe, setup_rnd}
use mbench.CacheMiss.Inside.{Inside, InsideNow, setup_rnd-InsideNow}
use mbench.CacheMiss.Options.{
  bad_stride, too_small, bad_ratio, no_memory, measured, Machine, Config, read_after,
  measure_rdlat_user, checked, alloc_memory,
}

sigfpe_returned : {w : Mem} → sigfpe ≢ returned w
sigfpe_returned e = cc

pos : (n : ℕ) → (n == 0) ≡ false → 0 < n
pos n e = ground arith

setup_rnd-Inside :
    (past_ratio : ℕ → Bool) (addr size seg_size : ℕ) (m w : Mem) (rnds : List ℕ)
    → 8 ≤ seg_size
    → setup_rnd past_ratio addr size seg_size m rnds ≡ returned w
    → (0 < size / seg_size) × Inside addr size seg_size w
unfolding setup_rnd
setup_rnd-Inside past_ratio addr size seg_size m w rnds wide e = elim (Bool-cases (seg_size == 0)) [
  | inl z ↦ absurd (sigfpe_returned (rw z at e))
  | inr nz ↦ elim (Bool-cases (size / seg_size == 0)) [
    | inl z ↦ absurd (sigfpe_returned (rw (nz, z) at e))
    | inr segs ↦ (
      pos (size / seg_size) segs,
      subst (InsideNow addr size seg_size) e (
          setup_rnd-InsideNow past_ratio addr size seg_size m rnds wide
            (pos (size / seg_size) segs)),
    )
  ]
]

module _ (F : Floats) (prl : ℕ) (past : F.R → ℕ → ℕ → Bool) where
  open F use {R, lit, ltf}

  read_after_measured :
      (ptr n stride : ℕ) (o : Outcome) {p n' : ℕ} {w : Mem} {v : ℕ}
      → read_after F prl past ptr n stride o ≡ measured p n' w v
      → (o ≡ returned w) × (ptr ≡ p) × (n ≡ n')
  read_after_measured ptr n stride (looping t) e = absurd (cc)
  read_after_measured ptr n stride (returned w) e = (cc, cc, cc)
  read_after_measured ptr n stride sigfpe e = absurd (cc)

  abbrev kb : Config F prl past → ℕ
  kb g = g.mem_size_per_thread_in_kb * g.scale % 2 ^ 64

  -- What a measurement stands on.
  pub record Sound (stride : ℕ) (mach : Machine) (h : Bool) (ptr n_bytes : ℕ) (w : Mem)
      : Type 0 where
    pub placed : alloc_memory h mach.mmap mach.memalign ≡ some ptr
    pub segs : 0 < n_bytes / stride
    pub inside : Inside ptr n_bytes stride w

  user-Sound :
      (h : Bool) (n stride : ℕ) (r : R) (mach : Machine) {p n' : ℕ} {w : Mem} {v : ℕ}
      → 8 ≤ stride
      → stride < 2 ^ 31
      → measure_rdlat_user F prl past h n stride r mach ≡ measured p n' w v
      → Sound stride mach h p n' w × (n ≡ n')
  unfolding measure_rdlat_user
  user-Sound h n stride r mach {p} {n'} {w} wide small e = elim (Bool-cases (stride == 0)) [
    | inl z ↦ absurd (zero_stride (rw z at e))
    | inr nz ↦ elim (Option-cases (alloc_memory h mach.mmap mach.memalign)) [
      | inl none_left ↦ absurd (no_region (rw (nz, none_left) at e))
      | inr (q, at) ↦ found q at (read_after_measured q n stride _ (rw (nz, at) at e))
    ]
  ]
    where
      zero_stride : {v : ℕ} → bad_stride ≢ measured p n' w v
      zero_stride e = cc

      no_region : {v : ℕ} → no_memory ≢ measured p n' w v
      no_region e = cc

      found :
          (q : ℕ)
          → alloc_memory h mach.mmap mach.memalign ≡ some q
          → (setup_rnd
                (past r (n / of_int (to_int stride)))
                q
                n
                (of_int (to_int stride))
                mach.mem
                mach.random
              ≡ returned w)
            × (q ≡ p)
            × (n ≡ n')
          → Sound stride mach h p n' w × (n ≡ n')
      found q at (ret, same, bytes) =
          let int : of_int (to_int stride) ≡ stride = ground arith in
          let (segs, ok) =
            setup_rnd-Inside (past r (n / of_int (to_int stride))) q n (of_int (to_int stride))
              mach.mem w mach.random (omega arith) ret in
          let all : (0 < n / stride) × Inside q n stride w =
            subst (λ k. (0 < n / k) × Inside q n k w) int (segs, ok) in
          (
            record {
              placed = at ∙ ap some same;
              segs = subst (λ k. 0 < k / stride) bytes all.0;
              inside =
                  subst (λ k. Inside p k stride w) bytes
                    (subst (λ k. Inside k n stride w) same all.1);
            },
            bytes,
          )

  -- If `main` of ParallelCacheMiss.c measures, with a stride from 8 to below 2^31, then the region
  -- has the size that the options ask for, in KB modulo 2^64 and at least 4, and in bytes modulo
  -- 2^64; it is where the allocation that the options chose has put it; it holds at least one
  -- segment; and the first word of each segment is the address of a segment.
  pub checked-Sound :
      (g : Config F prl past) (mach : Machine) (ptr n_bytes : ℕ) (w : Mem) (v : ℕ)
      → 8 ≤ g.stride
      → g.stride < 2 ^ 31
      → checked F prl past g mach ≡ measured ptr n_bytes w v
      → Sound g.stride mach g.hugepage_forced ptr n_bytes w
        × (4 ≤ g.mem_size_per_thread_in_kb * g.scale % 2 ^ 64)
        × (n_bytes ≡ g.mem_size_per_thread_in_kb * g.scale % 2 ^ 64 * 1024 % 2 ^ 64)
  unfolding checked
  checked-Sound g mach ptr n_bytes w v wide small e = elim (Bool-cases (ltb (kb g) 4)) [
    | inl low ↦ absurd (few (rw low at e))
    | inr enough ↦ elim (Bool-cases (ltf g.rand_ratio (lit 1 2) || ltf (lit 100 2) g.rand_ratio)) [
      | inl out ↦ absurd (ratio (rw (enough, out) at e))
      | inr fine ↦
          let (sound, bytes) =
            user-Sound g.hugepage_forced _ g.stride g.rand_ratio mach wide small
              (rw (enough, fine) at e) in
          (sound, omega (arith, ltb_false (kb g) enough), sym bytes)
    ]
  ]
    where
      few : {v : ℕ} → too_small ≢ measured ptr n_bytes w v
      few e = cc

      ratio : {v : ℕ} → bad_ratio ≢ measured ptr n_bytes w v
      ratio e = cc

      ltb_false : (n : ℕ) → ltb n 4 ≡ false → 4 ≤ n
      ltb_false n e = ground arith
