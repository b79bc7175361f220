-- ===== src/MemLat/Options/Accepts.antt =====
-- Which configurations `main` of mem_lat.c goes on with.
use mbench.Prelude.{ℕ, ◌+◌, ◌*◌, ◌/◌, ◌^◌, ◌≤◌, ◌<◌, ◌≡◌, ◌≢◌, false, arith, of_int}
use mbench.Floats.{Floats}
use mbench.MemLat.Options.{Config, ready, check_config, max_threads}

share_bound : (x y : ℕ) → y ≤ 256 → x * y ≤ x * 256
share_bound x y h = grind arith

module _ (F : Floats) where
  open F use {lit, ltf}

  pub record Accepted (omp_num_threads : ℕ) (g : Config F) : Type 0 where
    pub size : (4 ≤ g.mem_size_per_thread_in_kb) × (g.mem_size_per_thread_in_kb < 2 ^ 31)
    pub threads : (1 ≤ g.num_threads) × (g.num_threads ≤ max_threads)
    pub ratio : (ltf g.rand_ratio (lit 80 2) ≡ false) × (ltf (lit 100 2) g.rand_ratio ≡ false)
    pub omp : omp_num_threads ≤ max_threads
    pub stride : g.stride ≢ 0

  check_config_sound :
      (omp n_bytes n_segs : ℕ) (g g' : Config F)
      → check_config F omp g ≡ ready g' n_bytes n_segs
      → Accepted omp g
        × (g' ≡ g)
        × (n_bytes ≡ g.mem_size_per_thread_in_kb * 1024 * omp)
        × (n_segs ≡ n_bytes / of_int g.stride)
  unfolding check_config
  check_config_sound omp n_bytes n_segs g g' e = ground arith

  check_config_complete :
      (omp : ℕ) (g : Config F)
      → Accepted omp g
      → check_config F omp g
        ≡ ready g
            (g.mem_size_per_thread_in_kb * 1024 * omp)
            (g.mem_size_per_thread_in_kb * 1024 * omp / of_int g.stride)
  unfolding check_config
  check_config_complete omp g a = ground arith

  -- `main` goes on exactly with the configurations that have a stride other than 0, a positive
  -- size of 4 KB or more a thread, 1 to 256 threads asked for, at most 256 given by OpenMP, and a
  -- ratio that is neither below 0.80 nor above 1.00; it then uses that configuration unchanged,
  -- the bytes are the size times the threads, at most 2^49 and an equal share for each thread, and
  -- the segments are the bytes divided by the stride.
  pub check_config_accepts :
      (omp : ℕ) (g : Config F)
      → (Accepted omp g
          → (n_bytes : ℕ) × (n_segs : ℕ) × (check_config F omp g ≡ ready g n_bytes n_segs))
        × ((g' : Config F) (n_bytes n_segs : ℕ)
            → check_config F omp g ≡ ready g' n_bytes n_segs
            → Accepted omp g
              × (g' ≡ g)
              × (n_bytes ≡ omp * (g.mem_size_per_thread_in_kb * 1024))
              × (n_bytes < 2 ^ 49 + 1)
              × (n_segs ≡ n_bytes / of_int g.stride))
  check_config_accepts omp g = (
    λ a. (_, _, check_config_complete omp g a),
    λ g' nb ns e. used nb ns (check_config_sound omp nb ns g g' e),
  )
    where
      used :
          {g' : Config F} (nb ns : ℕ)
          → Accepted omp g
            × (g' ≡ g)
            × (nb ≡ g.mem_size_per_thread_in_kb * 1024 * omp)
            × (ns ≡ nb / of_int g.stride)
          → Accepted omp g
            × (g' ≡ g)
            × (nb ≡ omp * (g.mem_size_per_thread_in_kb * 1024))
            × (nb < 2 ^ 49 + 1)
            × (ns ≡ nb / of_int g.stride)
      used nb ns (a, same, bytes, segs) = (
        a,
        same,
        omega arith,
        omega (arith, share_bound (g.mem_size_per_thread_in_kb * 1024) omp a.omp),
        segs,
      )
