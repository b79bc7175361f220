-- ===== src/SortSpeed/Povit.antt =====
-- `measurePovit1` of sortSpeed/sortSpeed.cpp, which copies the elements below a pivot to the start
-- of another array and those above it to its end.
pub mod Copies
use mbench.Prelude.{ℕ, zero, suc, ◌+◌, ◌-◌, ◌/◌, Mem, store, if◌then◌else◌, ltb}

-- `arrDstL` and `arrDstR`, and the memory.
pub record Filtered : Type 0 where
  pub left : ℕ
  pub right : ℕ
  pub mem : Mem

-- One turn of the loop, on the element at `src`.
unfoldable pub filter_one : ℕ → ℕ → Filtered → Filtered
filter_one mid_val src s =
    let x = s.mem src in
    if ltb x mid_val
    then record { left = s.left + 1; right = s.right; mem = store s.mem s.left x }
    else if ltb mid_val x
    then record { left = s.left; right = s.right - 1; mem = store s.mem s.right x }
    else s

unfoldable pub filter_from : ℕ → ℕ → ℕ → Filtered → Filtered
unfolding filter_one
filter_from mid_val src zero s = s
filter_from mid_val src (suc n) s = filter_from mid_val (suc src) n (filter_one mid_val src s)

unfoldable pub measure_povit1 : ℕ → ℕ → ℕ → Mem → Filtered
unfolding filter_from
measure_povit1 arr dst n_len m =
    filter_from (m (arr + n_len / 2)) arr n_len
      (record { left = dst; right = dst + n_len - 1; mem = m })
