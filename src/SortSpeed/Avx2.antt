-- ===== src/SortSpeed/Avx2.antt =====
-- `avx2_remain_sorts` and `my_qsort_avx2` of sortSpeed/sortSpeed.cpp, which sort signed numbers.
-- An `int` is kept as its 32-bit pattern; the temporary array is a memory of its own.
pub mod Insertion
use mbench.Prelude.{
  ℕ, zero, suc, ◌+◌, ◌-◌, ◌%◌, ◌^◌, Option, none, some, ◌>>=◌, Mem, store, if◌then◌else◌, ltb, leb,
  to_int, of_int,
}

-- The place of a pattern in the order of the signed numbers.
abbrev pub signed : ℕ → ℕ
signed x = (x + 2 ^ 31) % 2 ^ 32

-- The inner loop from `j` on, and the store behind it.
unfoldable pub insert : ℕ → ℕ → ℕ → Mem → Mem
insert d tmp zero m = store m d tmp
insert d tmp (suc j) m =
    let rest = insert d tmp j (store m (d + suc j) (m (d + j))) in
    if ltb (signed tmp) (signed (m (d + j))) then rest else store m (d + suc j) tmp

-- The outer loop from `i` on, `n` times.
unfoldable pub insert_from : ℕ → ℕ → ℕ → Mem → Mem
unfolding insert
insert_from d i zero m = m
insert_from d i (suc n) m = insert_from d (suc i) n (insert d (m (d + i)) i m)

unfoldable pub avx2_remain_sorts : ℕ → ℕ → Mem → Mem
unfolding insert_from
avx2_remain_sorts d n m = if leb n 1 then m else insert_from d 1 (n - 1) m

-- What `qsort_avx2` gives back, an `int`, and both arrays.
pub record Partition : Type 0 where
  pub new_n : ℕ
  pub array : Mem
  pub tmp : Mem

pub record Arrays : Type 0 where
  pub array : Mem
  pub tmp : Mem

-- One round of the `while` is the call of `qsort_avx2`, the recursive call for the upper part, and
-- the rest of the loop for the lower part.
unfoldable pub my_qsort_avx2 : (ℕ → ℕ → Arrays → Partition) → ℕ → ℕ → ℕ → Arrays → Option Arrays
unfolding avx2_remain_sorts
my_qsort_avx2 qsort_avx2 zero unsorted n s = none
my_qsort_avx2 qsort_avx2 (suc fuel) unsorted n s =
    let part = qsort_avx2 unsorted n s in
    let new_n = of_int (to_int part.new_n) in
    let rest_n = (n + 2 ^ 64 - new_n - 1) % 2 ^ 64 in
    let rest =
      my_qsort_avx2 qsort_avx2 fuel (unsorted + (rest_n + 1)) new_n
        (record { array = part.array; tmp = part.tmp })
      >>= λ s'. my_qsort_avx2 qsort_avx2 fuel unsorted rest_n s' in
    if ltb 32 n
    then rest
    else some (record { array = avx2_remain_sorts unsorted n s.array; tmp = s.tmp })
