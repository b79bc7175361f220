-- ===== src/MemLat/Phases/Whole.antt =====
-- `main` of mem_lat.c: every setup is given cleared memory and leaves rings.
use mbench.Prelude.{
  ℕ, ◌+◌, ◌*◌, ◌/◌, ◌^◌, ◌≤◌, ◌<◌, ◌≡◌, refl, sym, ap, inl, inr, Bool, some, List, [], ◌∷◌, arith,
  All, Distinct, Occurs, eq_of_some, Mem, >>=-eq-some,
}
use mathlib.Core.Path.{subst}
use mbench.MemLat.Setup.{Returned}
use mbench.MemLat.Setup.Closed.{Cleared}
use mbench.MemLat.Parallel.{memset_slices, parallel_memset}
use mbench.MemLat.Parallel.Clears.{parallel_memset-zero}
use mbench.MemLat.Phases.{
  Chance, Report, setup_at, setup_threads, first_memset, unset, simple_test, parallel_test,
  modify_read, main,
}
use mbench.MemLat.Phases.Rings.{HasRing, setup_at-HasRing, share_div, ptrs_share}
use mbench.MemLat.Phases.Threads.{setup_threads-Done}

-- A list of the threads `0` to `omp - 1`, each at least once.
pub record Team (omp : ℕ) (order : List ℕ) : Type 0 where
  pub members : All (λ i. i < omp) order
  pub complete : (i : ℕ) → i < omp → Occurs i order

pub All-Occurs : (P : ℕ → Type 0) (a : ℕ) (xs : List ℕ) → All P xs → Occurs a xs → P a
All-Occurs P a [] all o = absurd o
All-Occurs P a (x ∷ xs) all (inl e) = subst P (sym e) all.0
All-Occurs P a (x ∷ xs) all (inr o) = All-Occurs P a xs all.1 o

module _ (past : ℕ → ℕ → Bool) (ptr kb omp stride default_loop : ℕ) (placed : 0 < ptr)
    (wide : 16 ≤ stride) (some_segs : 0 < kb * 1024 / stride)
    (fits : ptr + kb * 1024 * omp < 2 ^ 64) (int_fits : omp * kb < 2 ^ 31) (threads : 0 < omp) where
  exact : kb * 1024 * omp ≡ kb * 1024 * omp / omp * omp
  exact = ap (λ k. k * omp) (sym (share_div (kb * 1024) omp threads))

  Cleared-whole :
      (order : List ℕ) (m : Mem)
      → Team omp order
      → Cleared ptr (kb * 1024 * omp) stride (parallel_memset ptr (kb * 1024 * omp) omp order m)
  Cleared-whole order m team n lt =
      (parallel_memset-zero ptr (kb * 1024 * omp) omp order m threads exact team.complete
          team.members (ptr + n * stride)).0
        (omega arith) (grind arith)

  Cleared-share :
      (order : List ℕ) (m : Mem) (i : ℕ)
      → Team omp order
      → i < omp
      → Cleared
          (ptr + i * (kb * 1024))
          (kb * 1024)
          stride
          (parallel_memset ptr (kb * 1024 * omp) omp order m)
  Cleared-share order m i team lti n lt =
      (parallel_memset-zero ptr (kb * 1024 * omp) omp order m threads exact team.complete
          team.members (ptr + i * (kb * 1024) + n * stride)).0
        (omega arith) (grind arith)

  first_slices :
      (order : List ℕ) (m : Mem)
      → All (λ i. i < omp) order
      → memset_slices ptr (kb * 1024) order m
        ≡ first_memset past ptr kb omp stride default_loop order m
  unfolding memset_slices first_memset
  first_slices [] m below = refl
  first_slices (i ∷ order) m below =
      let start = ptrs_share past ptr kb omp stride default_loop i int_fits fits below.0 in
      rw start (first_slices order _ below.1)

  first_clear :
      (order : List ℕ) (m : Mem)
      → All (λ i. i < omp) order
      → parallel_memset ptr (kb * 1024 * omp) omp order m
        ≡ first_memset past ptr kb omp stride default_loop order m
  unfolding parallel_memset
  first_clear order m below =
      let same = share_div (kb * 1024) omp threads in rw same (first_slices order m below)

  whole_segs : 0 < kb * 1024 * omp / stride
  whole_segs = grind arith

  -- The share of each thread, after the threads' setups.
  abbrev pub ThreadRings : (ℕ → Returned) → Type 0
  ThreadRings rs = (i : ℕ) → i < omp → HasRing (ptr + i * (kb * 1024)) (kb * 1024) stride (rs i)

  simple-HasRing :
      (ch : Chance) (m m' : Mem) (r : Returned)
      → Cleared ptr (kb * 1024 * omp) stride m
      → simple_test past ptr kb omp stride default_loop ch m ≡ some (r, m')
      → HasRing ptr (kb * 1024 * omp) stride r
  unfolding simple_test
  simple-HasRing ch m m' r c e =
      let (q, se, re) =
        >>=-eq-some (setup_at past ptr (kb * 1024 * omp) stride m (ch.urandom 0)) _ e in
      subst (HasRing ptr (kb * 1024 * omp) stride) (ap (λ x. x.0) (eq_of_some re)) (
        setup_at-HasRing past stride (omega arith) ptr (kb * 1024 * omp) m (ch.urandom 0) q placed
          whole_segs (omega arith) c se)

  modify-HasRing :
      (ch : Chance) (m m' : Mem) (r : Returned)
      → Cleared ptr (kb * 1024 * omp) stride m
      → modify_read past ptr kb omp stride default_loop ch m ≡ some (r, m')
      → HasRing ptr (kb * 1024 * omp) stride r
  unfolding modify_read
  modify-HasRing ch m m' r c e =
      let (q, se, re) =
        >>=-eq-some (setup_at past ptr (kb * 1024 * omp) stride m (ch.urandom 0)) _ e in
      subst (HasRing ptr (kb * 1024 * omp) stride) (ap (λ x. x.0) (eq_of_some re)) (
        setup_at-HasRing past stride (omega arith) ptr (kb * 1024 * omp) m (ch.urandom 0) q placed
          whole_segs (omega arith) c se)

  pub parallel-ThreadRings :
      (ch : Chance) (m m' : Mem) (rs : ℕ → Returned)
      → Team omp ch.setups
      → Distinct ch.setups
      → ((i : ℕ) → i < omp → Cleared (ptr + i * (kb * 1024)) (kb * 1024) stride m)
      → parallel_test past ptr kb omp stride default_loop ch m ≡ some (rs, m')
      → ThreadRings rs
  unfolding parallel_test
  parallel-ThreadRings ch m m' rs team once c e i lt =
      let ((w, qs), se, re) =
        >>=-eq-some
          (setup_threads past ptr kb omp stride default_loop ch.urandom ch.setups m
            (unset past ptr kb omp stride default_loop m))
          _ e in
      subst (HasRing (ptr + i * (kb * 1024)) (kb * 1024) stride) (ap (λ x. x.0 i) (eq_of_some re)) (
        (setup_threads-Done past ptr kb omp stride default_loop placed (omega arith) some_segs fits
            int_fits threads ch.urandom ch.setups m w _ qs once team.members
            (λ j o. c j (All-Occurs (λ k. k < omp) j ch.setups team.members o)) se i).ring
          (team.complete i lt))

  -- If `main` reaches its end, from its first `memset` on, then the two tests that link the whole
  -- region each leave one ring through its start, and the parallel test one through the start of
  -- each thread's share, for at least one thread, a stride of 16 or more, shares that hold a
  -- segment, a region at a nonzero address that ends below 2^64, and a product of threads and KB a
  -- thread below 2^31, whatever the order of the threads in the regions that clear memory, and if
  -- each thread makes its setup once.
  pub main_rings :
      (page_faults second third : List ℕ) (for_simple for_parallel for_modify : Chance) (m : Mem)
      (rep : Report)
      → Team omp page_faults
      → Team omp second
      → Team omp third
      → Team omp for_parallel.setups
      → Distinct for_parallel.setups
      → main past ptr kb omp stride default_loop
          (page_faults, second, third)
          (for_simple, for_parallel, for_modify)
          m
        ≡ some rep
      → HasRing ptr (kb * 1024 * omp) stride rep.simple
        × ((i : ℕ) → i < omp → HasRing (ptr + i * (kb * 1024)) (kb * 1024) stride (rep.threads i))
        × HasRing ptr (kb * 1024 * omp) stride rep.modify
  unfolding main
  main_rings page_faults second third for_simple for_parallel for_modify m rep t1 t2 t3 tp once e =
      let ((r1, m1), e1, f1) =
        >>=-eq-some
          (simple_test past ptr kb omp stride default_loop for_simple
            (first_memset past ptr kb omp stride default_loop page_faults m))
          _ e in
      let ((rs, m2), e2, f2) =
        >>=-eq-some
          (parallel_test past ptr kb omp stride default_loop for_parallel
            (parallel_memset ptr (kb * 1024 * omp) omp second m1))
          _ f1 in
      let ((r3, m3), e3, f3) =
        >>=-eq-some
          (modify_read past ptr kb omp stride default_loop for_modify
            (parallel_memset ptr (kb * 1024 * omp) omp third m2))
          _ f2 in
      subst
        (λ q.
          HasRing ptr (kb * 1024 * omp) stride q.simple
          × ThreadRings q.threads
          × HasRing ptr (kb * 1024 * omp) stride q.modify)
        (eq_of_some f3)
        (
          simple-HasRing for_simple _ m1 r1
              (subst (Cleared ptr (kb * 1024 * omp) stride) (first_clear page_faults m t1.members)
                (Cleared-whole page_faults m t1))
              e1,
          parallel-ThreadRings for_parallel _ m2 rs tp once
              (λ i lt. Cleared-share second m1 i t2 lt) e2,
          modify-HasRing for_modify _ m3 r3 (Cleared-whole third m2 t3) e3,
        )
