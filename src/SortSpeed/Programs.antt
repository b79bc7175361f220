-- ===== src/SortSpeed/Programs.antt =====
-- `main` of sortSpeed/u32_radix_sort_portable.cpp, u32_radix_sort_demo.cpp and sortSpeed.cpp: the
-- memory after the test cases that the options select. `std::qsort` is a parameter.
pub mod Cases
pub mod Whole
use mbench.Prelude.{ℕ, ◌+◌, ◌*◌, ◌/◌, ◌%◌, ◌^◌, Option, some, ◌>>=◌, List, Mem, if◌then◌else◌}
use mbench.SortSpeed.Benchmark.{
  Opt, Config, System, defaults, set_options, selected, alloc_mem, fill_mt, fill_rdrand, clear,
  steps_of,
}
use mbench.SortSpeed.Radix.{radix_sort, table_words}
use mbench.SortSpeed.Quick.{qs_recsv}
use mbench.SortSpeed.Avx2.{Arrays, Partition, my_qsort_avx2}

-- What the test case 2 of both programs does once the array is filled; `radix_sort` is called on
-- the global arrays.
unfoldable pub radix_case : ℕ → ℕ → ℕ → ℕ → Mem → Mem
unfolding radix_sort clear
radix_case ptr ptrd n_elems idx m =
    radix_sort ptr ptrd ptr ptrd n_elems idx (clear ptrd table_words m)

abbrev pub extra_bytes : ℕ
extra_bytes = 20576

module _ (sys : System) (std_qsort : ℕ → ℕ → Mem → Mem) where
  -- Both arrays; `extra` is what the second has more.
  abbrev pub allocate : Config → ℕ → Option (ℕ × ℕ)
  allocate g size = alloc_mem sys 0 g.n_bytes g.hugepage_forced >>= λ ptr.
      alloc_mem sys 1 size g.hugepage_forced >>= λ ptrd. some (ptr, ptrd)

  -- The test cases of a radix program. `fill k` is the loop that fills the array in case `k`, and
  -- `idx` the uninitialised variable of `radix_sort`.
  unfoldable pub radix_cases : (ℕ → Mem → Mem) → Config → ℕ → ℕ → ℕ → Mem → Mem
  unfolding radix_case
  radix_cases fill g ptr ptrd idx m =
      let m0 = if selected g 0 then fill 0 m else m in
      let m1 = if selected g 1 then std_qsort ptr g.n_elems (fill 1 m0) else m0 in
      if selected g 2 then radix_case ptr ptrd g.n_elems idx (fill 2 m1) else m1

  -- u32_radix_sort_portable.cpp; `mt_rand k` are the numbers drawn in case `k`.
  unfoldable pub portable_main : (ℕ → ℕ → ℕ) → ℕ → List Opt → Mem → Option Mem
  unfolding set_options alloc_mem fill_mt radix_cases
  portable_main mt_rand idx opts m = set_options (defaults 1000) opts >>= λ g.
      allocate g ((g.n_bytes + extra_bytes) % 2 ^ 64) >>= λ p.
      some (radix_cases (λ k. fill_mt (mt_rand k) 0 p.0 (steps_of g)) g p.0 p.1 idx m)

  -- u32_radix_sort_demo.cpp.
  unfoldable pub demo_main : (ℕ → ℕ → Option ℕ) → ℕ → List Opt → Mem → Option Mem
  unfolding set_options alloc_mem fill_rdrand radix_cases
  demo_main rdrand idx opts m = set_options (defaults 1000) opts >>= λ g.
      allocate g ((g.n_bytes + extra_bytes) % 2 ^ 64) >>= λ p.
      some (radix_cases (λ k. fill_rdrand (rdrand k) 0 p.0 (steps_of g)) g p.0 p.1 idx m)

  -- The test cases 2 and 3 of sortSpeed.cpp on the filled array; the temporary array of
  -- `my_qsort_avx2` is a memory of its own.
  unfoldable pub quick_case : ℕ → ℕ → ℕ → Mem → Option Mem
  unfolding qs_recsv
  quick_case fuel ptr n_elems m = qs_recsv fuel m ptr n_elems

  unfoldable pub avx2_case : (ℕ → ℕ → Arrays → Partition) → ℕ → ℕ → ℕ → Mem → Option Mem
  unfolding my_qsort_avx2
  avx2_case qsort_avx2 fuel ptr n_elems m =
      my_qsort_avx2 qsort_avx2 fuel ptr n_elems (record { array = m; tmp = m }) >>= λ s.
      some s.array

  -- sortSpeed.cpp without the case that only the Intel compiler has. `none` is `exit`, or that a
  -- sort uses up the fuel.
  unfoldable pub sort_main :
      (ℕ → ℕ → Arrays → Partition) → (ℕ → ℕ → Option ℕ) → ℕ → List Opt → Mem → Option Mem
  unfolding set_options alloc_mem fill_rdrand quick_case avx2_case
  sort_main qsort_avx2 rdrand fuel opts m = set_options (defaults 1000000) opts >>= λ g.
      allocate g (g.n_bytes * 11 % 2 ^ 64 / 10) >>= λ p.
      let fill : ℕ → Mem → Mem = λ k. fill_rdrand (rdrand k) 0 p.0 (steps_of g) in
      let m0 = if selected g 0 then fill 0 m else m in
      let m1 = if selected g 1 then std_qsort p.0 g.n_elems (fill 1 m0) else m0 in
      let quick = quick_case fuel p.0 g.n_elems (fill 2 m1) in
      (if selected g 2 then quick else some m1) >>= λ m2.
      let avx2 = avx2_case qsort_avx2 fuel p.0 g.n_elems (fill 3 m2) in
      if selected g 3 then avx2 else some m2
