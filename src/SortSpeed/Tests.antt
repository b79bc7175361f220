-- ===== src/SortSpeed/Tests.antt =====
-- Runs of the sorts of sortSpeed/ and examples of the theorems about them.
use mbench.Prelude.{
  none, [], ◌∷◌, refl, if◌then◌else◌, ◌==◌, true, ℕ, ◌+◌, ◌-◌, ◌*◌, ◌%◌, ◌^◌, ◌≤◌, ◌<◌, ◌≡◌, inl,
  inr, some, List, Mem, store, arith,
}
use mbench.SortSpeed.Items.{SameItems, Ascending}
use mbench.SortSpeed.Windows.{cells}
use mbench.SortSpeed.Radix.{radix_sort}
use mbench.SortSpeed.Bags.{bag, SortedFrom, radix_sort_refines, radix_sort-qs_recsv}
use mbench.SortSpeed.Joins.{Sorts}
use mbench.SortSpeed.Improved
use mbench.SortSpeed.Improved.Short.{qs_recsv_short}
use mbench.SortSpeed.Benchmark.{
  Opt, Config, System, defaults, set_option, set_options, alloc_mem, steps_of, fill_mt,
}
use mbench.SortSpeed.Programs.{portable_main}
use mbench.SortSpeed.Povit.{filter_one, filter_from, measure_povit1}
use mbench.SortSpeed.Povit.Copies.{Copied, measure_povit1-Copied}
use mbench.SortSpeed.Programs.Cases.{fill_mt_zero}
use mbench.SortSpeed.Programs.Whole.{portable_main-Ascending}
use mbench.SortSpeed.Radix.Sorts.{radix_sort-frame}
use mbench.SortSpeed.Quick.{qs_recsv}
use mbench.SortSpeed.Quick.Sorts.{qs_recsv-Sorts}
use mbench.SortSpeed.Avx2.{signed, avx2_remain_sorts}
use mbench.SortSpeed.Avx2.Insertion.{avx2_remain_sorts-Sorts}

-- Three elements behind a buffer of zeroes.
abbrev three_elements : Mem
three_elements = store (store (store (λ a. 0) 6000 (2 ^ 31 + 5)) 6001 (2 ^ 12 + 5)) 6002 7

three_elements-zeroed : (i : ℕ) → i < 5144 → three_elements (0 + i) ≡ 0
three_elements-zeroed i lt = ground arith

three_elements-words : (a : ℕ) → 6000 ≤ a → a < 6000 + 3 → three_elements a < 2 ^ 32
three_elements-words a le lt = ground arith

radix_sort_refines_example :
    SortedFrom
      (bag (cells three_elements 6000 3))
      (cells (radix_sort 6000 0 6000 0 3 17 three_elements) 6000 3)
    × ((ys : List ℕ)
        → SortedFrom (bag (cells three_elements 6000 3)) ys
        → ys ≡ cells (radix_sort 6000 0 6000 0 3 17 three_elements) 6000 3)
radix_sort_refines_example =
    radix_sort_refines 6000 0 3 17 three_elements (inl (omega arith)) (omega arith) (omega arith)
      (omega arith) (omega arith) three_elements-zeroed three_elements-words

radix_sort-frame_example : radix_sort 6000 0 6000 0 3 17 three_elements 5999 ≡ 0
radix_sort-frame_example =
    radix_sort-frame 6000 0 3 17 three_elements (inl (omega arith)) (omega arith) (omega arith)
      (omega arith) (omega arith) three_elements-zeroed 5999 (inl (omega arith)) (inr (omega arith))

qs_recsv-Sorts_example :
    (m' : Mem) × (qs_recsv 4 three_elements 6000 3 ≡ some m')
    × Sorts (λ x. x) three_elements m' 6000 3
qs_recsv-Sorts_example = qs_recsv-Sorts 4 three_elements 6000 3 (omega arith) (omega arith)

radix_sort-qs_recsv_example :
    (m' : Mem) × (qs_recsv 4 three_elements 6000 3 ≡ some m')
    × (cells (radix_sort 6000 0 6000 0 3 17 three_elements) 6000 3 ≡ cells m' 6000 3)
radix_sort-qs_recsv_example =
    radix_sort-qs_recsv 6000 0 3 17 three_elements (inl (omega arith)) (omega arith) (omega arith)
      (omega arith) (omega arith) three_elements-zeroed three_elements-words (omega arith)

abbrev forty_elements : Mem
forty_elements a = 100 - a

avx2_remain_sorts-Sorts_example :
    Sorts signed forty_elements (avx2_remain_sorts 0 40 forty_elements) 0 40
avx2_remain_sorts-Sorts_example = avx2_remain_sorts-Sorts 0 40 forty_elements

abbrev small_words : Mem
small_words a = 5 * a % 1000

abbrev near_pages : System
near_pages = record {
  mmap = λ call size. none;
  posix_memalign = λ call size. if call == 0 then some 8000 else some 1000;
}

abbrev third_case : Config
third_case = record { n_elems = 1016; n_bytes = 4064; test_case = 2; hugepage_forced = true }

abbrev for_third : List Opt
for_third = Opt.l ∷ Opt.c 2 ∷ Opt.n 1016 ∷ []

chosen : set_options (defaults 1000) for_third ≡ some third_case
unfolding set_options set_option
chosen = refl

placed : (call size : ℕ) → alloc_mem near_pages call size true ≡ near_pages.posix_memalign call size
unfolding alloc_mem
placed call size = refl

portable_main-Ascending_example :
    (m' : Mem) × (portable_main near_pages (λ ptr n m. m) (λ k i. 77 * i) 17 for_third small_words
      ≡ some m')
    × SameItems
        (cells m' 8000 1016)
        (cells (fill_mt (λ i. 77 * i) 0 8000 (steps_of third_case) small_words) 8000 1016)
    × Ascending (λ x. x) (cells m' 8000 1016)
portable_main-Ascending_example =
    portable_main-Ascending near_pages (λ ptr n m. m) (λ k i. 77 * i) 17 for_third third_case chosen
      refl (omega arith) (omega arith) 8000 1000 small_words (placed 0 4064) (placed 1 24640)
      (inl (omega arith)) (omega arith) (λ a. omega arith)

fill_mt_zero_example : fill_mt (λ i. i + 7) 0 100 8 (λ a. a) (100 + 2 * 3 + 1) ≡ 0
fill_mt_zero_example = fill_mt_zero (λ i. i + 7) 0 100 8 (λ a. a) 3 (omega arith)

abbrev middle_first : Mem
middle_first = store (store (store (λ a. 0) 100 2) 101 3) 102 1

qs_recsv_short_example :
    (m' : Mem) × (mbench.SortSpeed.Improved.qs_recsv 5 middle_first 100 3 ≡ some m')
    × (m' 100 ≡ 1)
    × (m' 101 ≡ 3)
    × (m' 102 ≡ 2)
qs_recsv_short_example = qs_recsv_short 1 100 middle_first (omega arith) (omega arith) (omega arith)

abbrev five_elements : Mem
five_elements = store (store (store (store (store (λ a. 9) 100 4) 101 7) 102 4) 103 1) 104 6

measure_povit1-Copied_example :
    Copied 4
      (cells five_elements 100 5)
      (record { left = 200; right = 204; mem = five_elements })
      (measure_povit1 100 200 5 five_elements)
measure_povit1-Copied_example =
    measure_povit1-Copied 4 100 200 5 five_elements refl (omega arith) (inl (omega arith))

povit_left : (measure_povit1 100 200 5 five_elements).left ≡ 201
unfolding measure_povit1 filter_from filter_one
povit_left = refl
