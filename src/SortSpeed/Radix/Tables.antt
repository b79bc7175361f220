-- ===== src/SortSpeed/Radix/Tables.antt =====
-- The three tables of `radix_sort` once the keys are counted and the counts added up.
use mbench.Prelude.{
  ℕ, suc, ◌+◌, ◌^◌, ◌≤◌, ◌<◌, ◌≡◌, ◌⊎◌, inl, inr, refl, ap, ◌∙◌, List, length, Mem, arith,
}
use mbench.SortSpeed.Windows.{Outside, cells, cells-congr, length-cells}
use mbench.SortSpeed.Buckets.{with_key, below, below_mono, below_keys}
use mbench.SortSpeed.Radix.{
  count_keys, accumulate, sum_keys, lower_bits, middle_bits, upper_bits, middle_table, upper_table,
}
use mbench.SortSpeed.Radix.Counting.{accumulate-other, accumulate-sums}
use mbench.SortSpeed.Radix.Counted.{
  Ready, Counted, start, counted_middle, counted_upper, lower_counts, middle_counts, upper_counts,
  middle_elements, upper-other, upper_out, counted-frame, lower-bounded, middle-bounded,
  upper-bounded,
}

-- A table that tells how many elements have a lesser key.
abbrev pub Summed : (ℕ → ℕ) → ℕ → List ℕ → ℕ → Mem → Type 0
Summed key keys xs tbl m = (k : ℕ) → k < keys → m (tbl + k) ≡ below key xs k

accumulate-Summed :
    (key : ℕ → ℕ) (last : ℕ) (xs : List ℕ) (tbl : ℕ) (m : Mem)
    → ((x : ℕ) → key x < suc last)
    → length xs < 2 ^ 32
    → Counted key (suc last) xs tbl m
    → Summed key (suc last) xs tbl (accumulate tbl 1 last m)
accumulate-Summed key last xs tbl m bounded small (first, counted) k lt =
    accumulate-sums tbl 0 last m (below key xs) (ap m (omega arith) ∙ first)
      (λ j le lt'. omega (arith, counted j (omega arith)))
      (λ j le.
        let mono = below_mono key xs j (suc last) (omega arith) in
        omega (arith, mono, below_keys key (suc last) bounded xs))
      k (omega arith) (omega arith)

module _ (loc buf n idx : ℕ) (m : Mem) (ready : Ready loc buf n idx m) where
  small_list : length (cells m loc n) < 2 ^ 32
  small_list = omega (arith, ready.small, length-cells m loc n)

  -- After the loops that add up, in the order of the code.
  abbrev summed_lower : Mem
  summed_lower = accumulate buf 1 2047 (counted_upper loc buf n idx m ready).mem

  abbrev summed_middle : Mem
  summed_middle = accumulate (buf + middle_table) 1 2047 summed_lower

  abbrev pub summed : Mem
  summed = sum_keys buf (count_keys loc buf n (start loc buf n idx m ready)).mem

  same_memory : summed ≡ accumulate (buf + upper_table) 1 1023 summed_middle
  unfolding sum_keys count_keys
  same_memory = refl

  summed-other :
      (a : ℕ)
      → (a < buf + upper_table + 1) ⊎ (buf + upper_table + 1024 ≤ a)
      → summed a ≡ summed_middle a
  summed-other a out =
      ap (λ m'. m' a) same_memory
      ∙ accumulate-other (buf + upper_table) 1 1023 summed_middle a (ground arith)

  pub summed-lower_bits : Summed lower_bits 2048 (cells m loc n) buf summed
  summed-lower_bits k lt =
      summed-other (buf + k) (inl (omega arith))
      ∙ accumulate-other (buf + middle_table) 1 2047 summed_lower (buf + k) (inl (omega arith))
      ∙ accumulate-Summed lower_bits 2047 (cells m loc n) buf
          (counted_upper loc buf n idx m ready).mem lower-bounded small_list
          (lower_counts loc buf n idx m ready) k lt

  pub summed-middle_bits : Summed middle_bits 2048 (cells m loc n) (buf + middle_table) summed
  summed-middle_bits k lt =
      summed-other (buf + middle_table + k) (inl (omega arith))
      ∙ accumulate-Summed middle_bits 2047 (cells m loc n) (buf + middle_table) summed_lower
          middle-bounded small_list (here, counts) k lt
    where
      here : summed_lower (buf + middle_table) ≡ 0
      here =
          accumulate-other buf 1 2047 (counted_upper loc buf n idx m ready).mem (buf + middle_table)
            (inr (omega arith))
          ∙ (middle_counts loc buf n idx m ready).0

      counts :
          (j : ℕ)
          → j < 2048
          → summed_lower (buf + middle_table + suc j) ≡ with_key middle_bits (cells m loc n) j
      counts j lt' =
          accumulate-other buf 1 2047 (counted_upper loc buf n idx m ready).mem
            (buf + middle_table + suc j) (inr (omega arith))
          ∙ (middle_counts loc buf n idx m ready).1 j lt'

  pub summed-upper_bits : Summed upper_bits 1024 (cells m loc n) (buf + upper_table) summed
  summed-upper_bits k lt =
      ap (λ m'. m' (buf + upper_table + k)) same_memory
      ∙ accumulate-Summed upper_bits 1023 (cells m loc n) (buf + upper_table) summed_middle
          upper-bounded small_list (here, counts) k lt
    where
      kept_behind :
          (a : ℕ)
          → buf + upper_table ≤ a
          → summed_middle a ≡ (counted_upper loc buf n idx m ready).mem a
      kept_behind a le =
          accumulate-other (buf + middle_table) 1 2047 summed_lower a (inr (omega arith))
          ∙ accumulate-other buf 1 2047 (counted_upper loc buf n idx m ready).mem a
              (inr (omega arith))

      here : summed_middle (buf + upper_table) ≡ 0
      here = kept_behind (buf + upper_table) (omega arith) ∙ (upper_counts loc buf n idx m ready).0

      counts :
          (j : ℕ)
          → j < 1024
          → summed_middle (buf + upper_table + suc j) ≡ with_key upper_bits (cells m loc n) j
      counts j lt' =
          kept_behind (buf + upper_table + suc j) (omega arith)
          ∙ (upper_counts loc buf n idx m ready).1 j lt'

  -- The elements have not moved yet.
  pub summed-elements : cells summed loc n ≡ cells m loc n
  summed-elements =
      let apart = ready.apart in
      let out = upper_out loc buf n idx m ready in
      cells-congr summed (counted_middle loc buf n idx m ready).mem loc loc n (λ i lt.
        summed-other (loc + i) (ground arith)
        ∙ accumulate-other (buf + middle_table) 1 2047 summed_lower (loc + i) (ground arith)
        ∙ accumulate-other buf 1 2047 (counted_upper loc buf n idx m ready).mem (loc + i)
            (ground arith)
        ∙ upper-other loc buf n idx m ready (loc + i) (ground arith) (λ e. ground arith))
      ∙ middle_elements loc buf n idx m ready

  -- The counts and sums stay in the buffer.
  pub summed-frame : (a : ℕ) → Outside a buf (5144 + n) → summed a ≡ m a
  summed-frame a out =
      summed-other a (ground arith)
      ∙ accumulate-other (buf + middle_table) 1 2047 summed_lower a (ground arith)
      ∙ accumulate-other buf 1 2047 (counted_upper loc buf n idx m ready).mem a (ground arith)
      ∙ counted-frame loc buf n idx m ready a out
