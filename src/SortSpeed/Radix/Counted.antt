-- ===== src/SortSpeed/Radix/Counted.antt =====
-- The three tables of `radix_sort` once the keys are counted.
use mbench.Prelude.{
  ℕ, suc, ◌+◌, ◌-◌, ◌^◌, ◌≤◌, ◌<◌, ◌≡◌, ◌≢◌, ◌⊎◌, inl, inr, ap, ◌∙◌, List, Mem, arith,
}
use mbench.SortSpeed.Windows.{Outside, cells}
use mbench.SortSpeed.Buckets.{with_key}
use mbench.SortSpeed.Radix.{
  State, reset, count, lower_bits, middle_bits, upper_bits, middle_table, upper_table,
}
use mbench.SortSpeed.Radix.Counting.{
  counting-other, counting-zero, counting-elements, counting-counter, counting-idx,
}

pub lower-bounded : (x : ℕ) → lower_bits x < 2048
lower-bounded x = omega arith

pub middle-bounded : (x : ℕ) → middle_bits x < 2048
middle-bounded x = omega arith

pub upper-bounded : (x : ℕ) → upper_bits x < 1024
upper-bounded x = omega arith

-- `first` is the first word of a table for `keys` keys, with one count behind each key.
abbrev pub Counted : (ℕ → ℕ) → ℕ → List ℕ → ℕ → Mem → Type 0
Counted key keys xs tbl m = (m tbl ≡ 0) × ((k : ℕ) → k < keys → m (tbl + suc k) ≡ with_key key xs k)

-- What a call of `radix_sort` asks for: a buffer that does not overlap the elements, with zeroed
-- tables, and the writes at `idx` inside it.
pub record Ready (loc buf n idx : ℕ) (m : Mem) : Type 0 where
  pub apart : (buf + 5144 + n ≤ loc) ⊎ (loc + n ≤ buf)
  pub some_elements : 0 < n
  pub small : n < 2 ^ 31
  pub inside : idx < 5144 + n
  pub last_inside : middle_bits (m (loc + (n - 1))) < 1032 + n
  pub zeroed : (i : ℕ) → i < 5144 → m (buf + i) ≡ 0

module _ (loc buf n idx : ℕ) (m : Mem) (ready : Ready loc buf n idx m) where
  abbrev pub start : State
  start = record { idx = idx; mem = m }

  abbrev pub counted_lower : State
  counted_lower = count lower_bits buf loc n (reset buf start)

  abbrev pub counted_middle : State
  counted_middle =
      count middle_bits (buf + middle_table) loc n (reset (buf + middle_table) counted_lower)

  abbrev pub counted_upper : State
  counted_upper =
      count upper_bits (buf + upper_table) loc n (reset (buf + upper_table) counted_middle)

  lower_out : Outside (buf + idx) loc n
  lower_out = ground arith

  lower-other : (a : ℕ) → (a ≤ buf) ⊎ (buf + 2048 < a) → buf + idx ≢ a → counted_lower.mem a ≡ m a
  lower-other = counting-other lower_bits 2048 lower-bounded buf loc n start (ground arith)

  first_idx : counted_lower.idx ≡ lower_bits (m (loc + (n - 1)))
  first_idx =
      counting-idx lower_bits 2048 lower-bounded buf loc n start (ground arith) ready.some_elements
        lower_out

  middle_out : Outside (buf + middle_table + counted_lower.idx) loc n
  middle_out = let e = first_idx in let lt = lower-bounded (m (loc + (n - 1))) in ground arith

  middle-other :
      (a : ℕ)
      → (a ≤ buf + middle_table) ⊎ (buf + middle_table + 2048 < a)
      → buf + middle_table + counted_lower.idx ≢ a
      → counted_middle.mem a ≡ counted_lower.mem a
  middle-other =
      counting-other middle_bits 2048 middle-bounded (buf + middle_table) loc n counted_lower
        (ground arith)

  last_idx : counted_middle.idx ≡ middle_bits (m (loc + (n - 1)))
  last_idx =
      counting-idx middle_bits 2048 middle-bounded (buf + middle_table) loc n counted_lower
        (ground arith) ready.some_elements middle_out
      ∙ ap middle_bits (lower-other (loc + (n - 1)) (ground arith) (λ e. ground arith))

  pub upper_out : Outside (buf + upper_table + counted_middle.idx) loc n
  upper_out = let e = last_idx in ground arith

  pub upper-other :
      (a : ℕ)
      → (a ≤ buf + upper_table) ⊎ (buf + upper_table + 1024 < a)
      → buf + upper_table + counted_middle.idx ≢ a
      → counted_upper.mem a ≡ counted_middle.mem a
  upper-other =
      counting-other upper_bits 1024 upper-bounded (buf + upper_table) loc n counted_middle
        (ground arith)

  lower_elements : cells counted_lower.mem loc n ≡ cells m loc n
  lower_elements =
      counting-elements lower_bits 2048 lower-bounded buf loc n start (ground arith) lower_out

  pub middle_elements : cells counted_middle.mem loc n ≡ cells m loc n
  middle_elements =
      counting-elements middle_bits 2048 middle-bounded (buf + middle_table) loc n counted_lower
        (ground arith) middle_out
      ∙ lower_elements

  -- The counts of the lower bits stay in place while the other keys are counted.
  kept : (i : ℕ) → i ≤ 2048 → counted_upper.mem (buf + i) ≡ counted_lower.mem (buf + i)
  kept i le =
      upper-other (buf + i) (inl (omega arith)) (λ e. omega (arith, e))
      ∙ middle-other (buf + i) (inl (omega arith)) (λ e. omega (arith, e))

  pub lower_counts : Counted lower_bits 2048 (cells m loc n) buf counted_upper.mem
  lower_counts = (
    ap counted_upper.mem (omega arith)
        ∙ kept 0 (omega arith)
        ∙ counting-zero lower_bits 2048 lower-bounded buf loc n start (ground arith) (buf + 0)
            (inl (omega arith)) (ready.zeroed 0 (omega arith)),
    λ k lt.
        kept (suc k) (omega arith)
        ∙ counting-counter lower_bits 2048 lower-bounded buf loc n start (ground arith)
            (omega arith) lower_out k (ready.zeroed (suc k) (omega arith)),
  )

  -- Nothing is counted in the tables that are to come.
  lower_zero : (i : ℕ) → 2048 < i → i < 5144 → counted_lower.mem (buf + i) ≡ 0
  lower_zero i lt lt' =
      counting-zero lower_bits 2048 lower-bounded buf loc n start (ground arith) (buf + i)
        (inr (omega arith)) (ready.zeroed i lt')

  middle_kept :
      (i : ℕ)
      → i ≤ 2048
      → counted_upper.mem (buf + middle_table + i) ≡ counted_middle.mem (buf + middle_table + i)
  middle_kept i le =
      upper-other (buf + middle_table + i) (inl (omega arith)) (λ e. omega (arith, e))

  pub middle_counts :
      Counted middle_bits 2048 (cells m loc n) (buf + middle_table) counted_upper.mem
  middle_counts = (
    ap counted_upper.mem (omega arith)
        ∙ middle_kept 0 (omega arith)
        ∙ counting-zero middle_bits 2048 middle-bounded (buf + middle_table) loc n counted_lower
            (ground arith) (buf + middle_table + 0) (inl (omega arith))
            (ap counted_lower.mem (omega arith)
              ∙ lower_zero middle_table (omega arith) (omega arith)),
    λ k lt.
        middle_kept (suc k) (omega arith)
        ∙ counting-counter middle_bits 2048 middle-bounded (buf + middle_table) loc n counted_lower
            (ground arith) (omega arith) middle_out k
            (ap counted_lower.mem (omega arith)
              ∙ lower_zero (middle_table + suc k) (omega arith) (omega arith))
        ∙ ap (λ xs. with_key middle_bits xs k) lower_elements,
  )

  middle_zero : (i : ℕ) → 4104 < i → i < 5144 → counted_middle.mem (buf + i) ≡ 0
  middle_zero i lt lt' =
      counting-zero middle_bits 2048 middle-bounded (buf + middle_table) loc n counted_lower
        (ground arith) (buf + i) (inr (omega arith)) (lower_zero i (omega arith) lt')

  pub upper_counts : Counted upper_bits 1024 (cells m loc n) (buf + upper_table) counted_upper.mem
  upper_counts = (
    counting-zero upper_bits 1024 upper-bounded (buf + upper_table) loc n counted_middle
        (ground arith) (buf + upper_table) (inl (omega arith))
        (middle_zero upper_table (omega arith) (omega arith)),
    λ k lt.
        counting-counter upper_bits 1024 upper-bounded (buf + upper_table) loc n counted_middle
          (ground arith) (omega arith) upper_out k
          (ap counted_middle.mem (omega arith)
            ∙ middle_zero (upper_table + suc k) (omega arith) (omega arith))
        ∙ ap (λ xs. with_key upper_bits xs k) middle_elements,
  )

  -- Outside the buffer the counting changes nothing.
  pub counted-frame : (a : ℕ) → Outside a buf (5144 + n) → counted_upper.mem a ≡ m a
  counted-frame a out =
      let apart' = ready.apart in
      let e = last_idx in
      let e' = first_idx in
      let lt = lower-bounded (m (loc + (n - 1))) in
      let inside' = ready.inside in
      let last = ready.last_inside in
      upper-other a (ground arith) (λ e''. ground arith)
      ∙ middle-other a (ground arith) (λ e''. ground arith)
      ∙ lower-other a (ground arith) (λ e''. ground arith)
