-- ===== src/SortSpeed/Radix.antt =====
-- `radix_sort` of sortSpeed/u32_radix_sort_portable.cpp and of its copy u32_radix_sort_demo.cpp.
-- The memory is a 32-bit word for each word address.
pub mod Counting
pub mod Counted
pub mod Distributing
pub mod Tables
pub mod Moves
pub mod Sorts
use mbench.Prelude.{ℕ, zero, suc, ◌+◌, ◌-◌, ◌/◌, ◌%◌, ◌^◌, Mem, store}

-- `x & 0x7FF`, `(x >> 11) & 0x7FF` and `(x >> 22) & 0x3FF`.
abbrev pub lower_bits : ℕ → ℕ
lower_bits x = x % 2 ^ 11

abbrev pub middle_bits : ℕ → ℕ
middle_bits x = x / 2 ^ 11 % 2 ^ 11

abbrev pub upper_bits : ℕ → ℕ
upper_bits x = x / 2 ^ 22 % 2 ^ 10

-- The offsets 0x2020, 0x4040 and 0x5060 into `buf`, in words.
abbrev pub middle_table : ℕ
middle_table = 2056

abbrev pub upper_table : ℕ
upper_table = 4112

abbrev pub table_words : ℕ
table_words = 5144

-- The variable `idx`, which the loops share, and the memory.
pub record State : Type 0 where
  idx : ℕ
  mem : Mem

-- `seqTbl[idx] = 0`.
unfoldable pub reset : ℕ → State → State
reset tbl s = record { idx = s.idx; mem = store s.mem (tbl + s.idx) 0 }

-- `idx = <key of loc[i]>; seqTbl[idx + 1]++;`
unfoldable pub count_one : (ℕ → ℕ) → ℕ → ℕ → State → State
count_one key tbl src s =
    let k = key (s.mem src) in
    record { idx = k; mem = store s.mem (tbl + suc k) ((s.mem (tbl + suc k) + 1) % 2 ^ 32) }

-- The loop over the `n` elements from `src`.
unfoldable pub count : (ℕ → ℕ) → ℕ → ℕ → ℕ → State → State
count key tbl src zero s = s
count key tbl src (suc n) s = count key tbl (suc src) n (count_one key tbl src s)

-- `for(; idx < ...; idx++) seqTbl[idx] = seqTbl[idx - 1] + seqTbl[idx];`, `n` times.
unfoldable pub accumulate : ℕ → ℕ → ℕ → Mem → Mem
accumulate tbl idx zero m = m
accumulate tbl idx (suc n) m =
    accumulate tbl (suc idx) n
      (store m (tbl + idx) ((m (tbl + (idx - 1)) + m (tbl + idx)) % 2 ^ 32))

-- One round of the loops that distribute: the element goes where its counter says, and the
-- counter moves on.
unfoldable pub place : (ℕ → ℕ) → ℕ → ℕ → ℕ → Mem → Mem
place key tbl dst src m =
    let k = key (m src) in
    let data_idx = m (tbl + k) in
    store (store m (dst + data_idx) (m src)) (tbl + k) ((data_idx + 1) % 2 ^ 32)

unfoldable pub distribute : (ℕ → ℕ) → ℕ → ℕ → ℕ → ℕ → Mem → Mem
distribute key tbl dst src zero m = m
distribute key tbl dst src (suc n) m = distribute key tbl dst (suc src) n (place key tbl dst src m)

-- `memcpy` of `n` words.
unfoldable pub copy_words : ℕ → ℕ → ℕ → Mem → Mem
copy_words dst src zero m = m
copy_words dst src (suc n) m = copy_words (suc dst) (suc src) n (store m dst (m src))

-- The three loops that count the keys, each after its reset.
unfoldable pub count_keys : ℕ → ℕ → ℕ → State → State
unfolding reset count
count_keys loc buf n s =
    let lower = count lower_bits buf loc n (reset buf s) in
    let middle = count middle_bits (buf + middle_table) loc n (reset (buf + middle_table) lower) in
    count upper_bits (buf + upper_table) loc n (reset (buf + upper_table) middle)

-- The three loops that turn the counts into positions.
unfoldable pub sum_keys : ℕ → Mem → Mem
unfolding accumulate
sum_keys buf m =
    accumulate (buf + upper_table) 1 1023
      (accumulate (buf + middle_table) 1 2047 (accumulate buf 1 2047 m))

-- The three loops that distribute the elements, and the copy back, which is from the global `ptrd`
-- to the global `ptr` and not between the parameters.
unfoldable pub move_elements : ℕ → ℕ → ℕ → ℕ → ℕ → Mem → Mem
unfolding distribute copy_words
move_elements ptr ptrd loc buf n m =
    let space = buf + table_words in
    let lower = distribute lower_bits buf space loc n m in
    let middle = distribute middle_bits (buf + middle_table) loc space n lower in
    copy_words ptr (ptrd + table_words) n
      (distribute upper_bits (buf + upper_table) space loc n middle)

-- `ptr` and `ptrd` are the global arrays, and `idx` is the value that the uninitialised variable
-- happens to have.
unfoldable pub radix_sort : ℕ → ℕ → ℕ → ℕ → ℕ → ℕ → Mem → Mem
unfolding count_keys sum_keys move_elements
radix_sort ptr ptrd loc buf n idx m =
    move_elements ptr ptrd loc buf n
      (sum_keys buf (count_keys loc buf n (record { idx = idx; mem = m })).mem)
