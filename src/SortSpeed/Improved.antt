-- ===== src/SortSpeed/Improved.antt =====
-- `qs_recsv` of sortSpeed_improved_v1.cpp, an earlier version of that of sortSpeed.cpp with the
-- same partition: its recursive calls are given one element less than the parts have.
pub mod Short
use mbench.Prelude.{ℕ, zero, suc, ◌+◌, ◌-◌, Option, none, some, ◌>>=◌, Mem, if◌then◌else◌, ltb}
use mbench.SortSpeed.Quick.{Bounds, scalar_partition_epi32}

-- `if (first < last) qs_recsv(first, last - first);` with `qs_recsv` as an argument.
abbrev pub recurse : (Mem → ℕ → ℕ → Option Mem) → ℕ → ℕ → Mem → Option Mem
recurse sort first last m = if ltb first last then sort m first (last - first) else some m

unfoldable pub qs_recsv : ℕ → Mem → ℕ → ℕ → Option Mem
unfolding scalar_partition_epi32
qs_recsv zero m array n = none
qs_recsv (suc fuel) m array n =
    let last = array + n - 1 in
    let start : Bounds = record { right = array; left = last; mem = m } in
    scalar_partition_epi32 (suc fuel) (suc fuel) (m array) start >>= λ s.
    recurse (qs_recsv fuel) array s.left s.mem >>= λ m'. recurse (qs_recsv fuel) s.right last m'
