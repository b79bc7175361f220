-- ===== src/SortSpeed/Quick.antt =====
-- `scalar_partition_epi32` and `qs_recsv` of sortSpeed/sortSpeed.cpp. The memory is a 32-bit word
-- for each word address, and a loop that uses up its fuel gives no result.
pub mod Scans
pub mod Partitions
pub mod Sorts
use mbench.Prelude.{
  ℕ, zero, suc, ◌+◌, ◌-◌, Option, none, some, ◌>>=◌, Mem, store, if◌then◌else◌, ltb, leb,
}

-- `while (**newRBound < pivot) (*newRBound)++;`
unfoldable pub scan_up : ℕ → Mem → ℕ → ℕ → Option ℕ
scan_up zero m pivot a = none
scan_up (suc fuel) m pivot a =
    let rest = scan_up fuel m pivot (a + 1) in if ltb (m a) pivot then rest else some a

-- `while (**newLBound > pivot) (*newLBound)--;`
unfoldable pub scan_down : ℕ → Mem → ℕ → ℕ → Option ℕ
scan_down zero m pivot a = none
scan_down (suc fuel) m pivot a =
    let rest = scan_down fuel m pivot (a - 1) in if ltb pivot (m a) then rest else some a

-- `*newRBound` and `*newLBound`, and the memory.
pub record Bounds : Type 0 where
  pub right : ℕ
  pub left : ℕ
  pub mem : Mem

-- The swap of `**newRBound` and `**newLBound`.
unfoldable pub swap : ℕ → ℕ → Mem → Mem
swap a b m = store (store m a (m b)) b (m a)

-- What follows the two scans.
unfoldable pub exchange : ℕ → ℕ → Mem → Bounds
unfolding swap
exchange right left m =
    if leb right left
    then record { right = right + 1; left = left - 1; mem = swap right left m }
    else record { right = right; left = left; mem = m }

-- `steps` is the fuel of each scan, the first argument that of the outer loop.
unfoldable pub scalar_partition_epi32 : ℕ → ℕ → ℕ → Bounds → Option Bounds
unfolding scan_up scan_down exchange
scalar_partition_epi32 zero steps pivot s = none
scalar_partition_epi32 (suc rounds) steps pivot s =
    let rest = scan_up steps s.mem pivot s.right >>= λ right.
    scan_down steps s.mem pivot s.left >>= λ left.
    scalar_partition_epi32 rounds steps pivot (exchange right left s.mem) in
    if leb s.right s.left then rest else some s

-- `if (first < last) qs_recsv(first, last + 1 - first);` with `qs_recsv` as an argument.
abbrev pub recurse : (Mem → ℕ → ℕ → Option Mem) → ℕ → ℕ → Mem → Option Mem
recurse sort first last m = if ltb first last then sort m first (last + 1 - first) else some m

unfoldable pub qs_recsv : ℕ → Mem → ℕ → ℕ → Option Mem
unfolding scalar_partition_epi32
qs_recsv zero m array n = none
qs_recsv (suc fuel) m array n =
    let last = array + n - 1 in
    let start : Bounds = record { right = array; left = last; mem = m } in
    scalar_partition_epi32 (suc fuel) (suc fuel) (m array) start >>= λ s.
    recurse (qs_recsv fuel) array s.left s.mem >>= λ m'. recurse (qs_recsv fuel) s.right last m'
