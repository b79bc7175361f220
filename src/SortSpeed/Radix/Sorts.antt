-- ===== src/SortSpeed/Radix/Sorts.antt =====
-- `radix_sort` as a whole.
use mbench.Prelude.{ℕ, ◌+◌, ◌-◌, ◌%◌, ◌^◌, ◌≤◌, ◌<◌, ◌≡◌, ◌⊎◌, sym, ap, ◌∙◌, Mem, arith}
use mbench.SortSpeed.Items.{SameItems, Ascending, Ascending-congr, All-map, All-SameItems}
use mbench.SortSpeed.Windows.{Outside, cells, All-cells}
use mbench.SortSpeed.Radix.{
  radix_sort, lower_bits, middle_bits, upper_bits, middle_table, upper_table,
}
use mbench.SortSpeed.Buckets.{below}
use mbench.SortSpeed.Radix.Moves.{
  radix_passes, radix_passes-SameItems, radix_passes-Ascending, move_elements-passes,
  move_elements-frame,
}
use mbench.SortSpeed.Radix.Counted.{Ready}
use mbench.SortSpeed.Radix.Tables.{
  Summed, summed-frame, summed, summed-elements, summed-lower_bits, summed-middle_bits,
  summed-upper_bits,
}

module _ (loc buf n idx : ℕ) (m : Mem) (ready : Ready loc buf n idx m) where
  abbrev tables : Mem
  tables = summed loc buf n idx m ready

  same : cells tables loc n ≡ cells m loc n
  same = summed-elements loc buf n idx m ready

  lower_ready : Summed lower_bits 2048 (cells tables loc n) buf tables
  lower_ready k lt =
      summed-lower_bits loc buf n idx m ready k lt ∙ ap (λ xs. below lower_bits xs k) (sym same)

  middle_ready : Summed middle_bits 2048 (cells tables loc n) (buf + middle_table) tables
  middle_ready k lt =
      summed-middle_bits loc buf n idx m ready k lt ∙ ap (λ xs. below middle_bits xs k) (sym same)

  upper_ready : Summed upper_bits 1024 (cells tables loc n) (buf + upper_table) tables
  upper_ready k lt =
      summed-upper_bits loc buf n idx m ready k lt ∙ ap (λ xs. below upper_bits xs k) (sym same)

  few : n < 2 ^ 32
  few = omega (arith, ready.small)

  radix_sort-passes :
      cells (radix_sort loc buf loc buf n idx m) loc n ≡ radix_passes (cells m loc n)
  unfolding radix_sort
  radix_sort-passes =
      move_elements-passes loc buf n tables ready.apart few lower_ready middle_ready upper_ready
      ∙ ap radix_passes same

  radix_sort-untouched :
      (a : ℕ)
      → Outside a loc n
      → Outside a buf (5144 + n)
      → radix_sort loc buf loc buf n idx m a ≡ m a
  unfolding radix_sort
  radix_sort-untouched a out out' =
      move_elements-frame loc buf n tables ready.apart few lower_ready middle_ready upper_ready a
        out out'
      ∙ summed-frame loc buf n idx m ready a out'

module _ (loc buf n idx : ℕ) (m : Mem) (apart : (buf + 5144 + n ≤ loc) ⊎ (loc + n ≤ buf))
    (some_elements : 0 < n) (small : n < 2 ^ 31) (inside : idx < 5144 + n)
    (last_inside : middle_bits (m (loc + (n - 1))) < 1032 + n)
    (zeroed : (i : ℕ) → i < 5144 → m (buf + i) ≡ 0) where
  ready : Ready loc buf n idx m
  ready = record {
    apart = apart;
    some_elements = some_elements;
    small = small;
    inside = inside;
    last_inside = last_inside;
    zeroed = zeroed;
  }

  -- If `radix_sort` is called on the global arrays, the buffer does not overlap the array, its
  -- tables are zeroed, the uninitialised `idx` is an index into it, and so is the one that the
  -- third reset uses, then on at least one and fewer than 2^31 elements it changes no word outside
  -- the array and the 5144 + n words of the buffer.
  pub radix_sort-frame :
      (a : ℕ)
      → Outside a loc n
      → Outside a buf (5144 + n)
      → radix_sort loc buf loc buf n idx m a ≡ m a
  radix_sort-frame = radix_sort-untouched loc buf n idx m ready

  -- The elements are rearranged, and ascend if they are 32-bit words.
  pub radix_sort-Ascending :
      ((a : ℕ) → loc ≤ a → a < loc + n → m a < 2 ^ 32)
      → SameItems (cells (radix_sort loc buf loc buf n idx m) loc n) (cells m loc n)
        × Ascending (λ x. x) (cells (radix_sort loc buf loc buf n idx m) loc n)
  radix_sort-Ascending words =
      let same : SameItems (radix_passes (cells m loc n)) (cells m loc n) =
        radix_passes-SameItems (cells m loc n) in
      rw (radix_sort-passes loc buf n idx m ready) (
        same,
        Ascending-congr (λ x. x % 2 ^ 32) (λ x. x) (radix_passes (cells m loc n))
            (All-map (λ x lt. omega (arith, lt)) (radix_passes (cells m loc n))
              (All-SameItems (λ x. x < 2 ^ 32) (radix_passes (cells m loc n)) (cells m loc n) same
                (All-cells (λ x. x < 2 ^ 32) m loc n words)))
            (radix_passes-Ascending (cells m loc n)),
      )
