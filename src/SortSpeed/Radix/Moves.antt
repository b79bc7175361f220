-- ===== src/SortSpeed/Radix/Moves.antt =====
-- The loops of `radix_sort` that move the elements: three passes and a copy.
use mbench.Prelude.{
  ℕ, zero, suc, ◌+◌, ◌%◌, ◌^◌, ◌≤◌, ◌<◌, ◌≡◌, ◌⊎◌, inl, inr, refl, sym, ap, ◌∙◌, List, [], ◌∷◌, All,
  Mem, store, store_self, store-ne, ◌==◌, total-congr, arith,
}
use mbench.SortSpeed.Items.{tally, SameItems, Ascending}
use mbench.SortSpeed.Windows.{Outside, cells, cells-congr}
use mbench.SortSpeed.Buckets.{below, with_key, buckets, buckets-SameItems, buckets-Ascending}
use mbench.SortSpeed.Radix.{
  distribute, copy_words, move_elements, lower_bits, middle_bits, upper_bits, middle_table,
  upper_table, table_words,
}
use mbench.SortSpeed.Radix.Distributing.{distribute-buckets, distribute-frame}
use mbench.SortSpeed.Radix.Counted.{lower-bounded, middle-bounded, upper-bounded}
use mbench.SortSpeed.Radix.Tables.{Summed}

-- What the three passes make of the elements.
abbrev pub radix_passes : List ℕ → List ℕ
radix_passes xs = buckets upper_bits 1024 (buckets middle_bits 2048 (buckets lower_bits 2048 xs))

-- The positions depend on how often a key occurs, not on the order of the elements.
below-SameItems :
    (key : ℕ → ℕ) (xs ys : List ℕ) (k : ℕ) → SameItems xs ys → below key xs k ≡ below key ys k
below-SameItems key xs ys k same =
    total-congr k (with_key key xs) (with_key key ys) (λ j lt. same (λ x. key x == j))

pub radix_passes-SameItems : (xs : List ℕ) → SameItems (radix_passes xs) xs
radix_passes-SameItems xs p =
    let lower = buckets lower_bits 2048 xs in
    let middle = buckets middle_bits 2048 lower in
    buckets-SameItems upper_bits 1024 upper-bounded middle p
    ∙ buckets-SameItems middle_bits 2048 middle-bounded lower p
    ∙ buckets-SameItems lower_bits 2048 lower-bounded xs p

-- The least digits sort first; each pass keeps the order of the one before among equal keys.
pub radix_passes-Ascending : (xs : List ℕ) → Ascending (λ x. x % 2 ^ 32) (radix_passes xs)
radix_passes-Ascending xs =
    let lower = buckets lower_bits 2048 xs in
    let middle = buckets middle_bits 2048 lower in
    buckets-Ascending upper_bits (λ x. x % 2 ^ 22) (λ x. x % 2 ^ 32) 1024
      (λ x y e le. omega (arith, e, le)) (λ x y lt. omega (arith, lt)) middle
      (buckets-Ascending middle_bits lower_bits (λ x. x % 2 ^ 22) 2048
        (λ x y e le. omega (arith, e, le)) (λ x y lt. omega (arith, lt)) lower
        (buckets-Ascending lower_bits (λ x. 0) lower_bits 2048 (λ x y e le. omega (arith, e))
          (λ x y lt. omega (arith, lt)) xs (zero-Ascending xs)))
  where
    zero_below : (ys : List ℕ) → All (λ y. 0 ≤ 0) ys
    zero_below [] = tt
    zero_below (y ∷ ys) = (omega arith, zero_below ys)

    zero-Ascending : (ys : List ℕ) → Ascending (λ x. 0) ys
    zero-Ascending [] = tt
    zero-Ascending (y ∷ ys) = (zero_below ys, zero-Ascending ys)

copy_words-other :
    (dst src n : ℕ) (m : Mem) (a : ℕ) → Outside a dst n → copy_words dst src n m a ≡ m a
unfolding copy_words
copy_words-other dst src zero m a out = refl
copy_words-other dst src (suc n) m a out =
    copy_words-other (suc dst) (suc src) n (store m dst (m src)) a (ground arith)
    ∙ store-ne m dst (m src) a (λ e. ground arith)

copy_words-cells :
    (dst src n : ℕ) (m : Mem)
    → (src + n ≤ dst) ⊎ (dst + n ≤ src)
    → cells (copy_words dst src n m) dst n ≡ cells m src n
unfolding copy_words
copy_words-cells dst src zero m apart = refl
copy_words-cells dst src (suc n) m apart =
    let m' = store m dst (m src) in
    let first = copy_words-other (suc dst) (suc src) n m' dst (inl (omega arith)) in
    let here = store_self m dst (m src) in
    let rest = copy_words-cells (suc dst) (suc src) n m' (ground arith) in
    let same =
      cells-congr m' m (suc src) (suc src) n
        λ i lt. store-ne m dst (m src) (suc src + i) (λ e. ground arith) in
    grind arith

module _ (loc buf n : ℕ) (m : Mem) (apart : (buf + 5144 + n ≤ loc) ⊎ (loc + n ≤ buf))
    (small : n < 2 ^ 32) (lower_summed : Summed lower_bits 2048 (cells m loc n) buf m)
    (middle_summed : Summed middle_bits 2048 (cells m loc n) (buf + middle_table) m)
    (upper_summed : Summed upper_bits 1024 (cells m loc n) (buf + upper_table) m) where
  abbrev space : ℕ
  space = buf + table_words

  abbrev moved_lower : Mem
  moved_lower = distribute lower_bits buf space loc n m

  lower_pass : cells moved_lower space n ≡ buckets lower_bits 2048 (cells m loc n)
  lower_pass =
      distribute-buckets lower_bits 2048 lower-bounded buf space loc n m (inr (omega arith)) small
        (λ b le lt. (ground arith, ground arith)) lower_summed

  lower_frame : (a : ℕ) → Outside a buf 2048 → Outside a space n → moved_lower a ≡ m a
  lower_frame =
      distribute-frame lower_bits 2048 lower-bounded buf space loc n m (inr (omega arith)) small
        (λ b le lt. (ground arith, ground arith)) lower_summed

  lower_same : SameItems (cells m loc n) (cells moved_lower space n)
  lower_same p =
      sym (
        ap (tally p) lower_pass ∙ buckets-SameItems lower_bits 2048 lower-bounded (cells m loc n) p)

  middle_ready :
      Summed middle_bits 2048 (cells moved_lower space n) (buf + middle_table) moved_lower
  middle_ready k lt =
      lower_frame (buf + middle_table + k) (inr (omega arith)) (inl (omega arith))
      ∙ middle_summed k lt
      ∙ below-SameItems middle_bits (cells m loc n) (cells moved_lower space n) k lower_same

  abbrev moved_middle : Mem
  moved_middle = distribute middle_bits (buf + middle_table) loc space n moved_lower

  middle_pass : cells moved_middle loc n ≡ buckets middle_bits 2048 (cells moved_lower space n)
  middle_pass =
      distribute-buckets middle_bits 2048 middle-bounded (buf + middle_table) loc space n
        moved_lower (ground arith) small (λ b le lt. (ground arith, ground arith)) middle_ready

  middle_frame :
      (a : ℕ)
      → Outside a (buf + middle_table) 2048
      → Outside a loc n
      → moved_middle a ≡ moved_lower a
  middle_frame =
      distribute-frame middle_bits 2048 middle-bounded (buf + middle_table) loc space n moved_lower
        (ground arith) small (λ b le lt. (ground arith, ground arith)) middle_ready

  middle_same : SameItems (cells moved_lower space n) (cells moved_middle loc n)
  middle_same p = sym (
      ap (tally p) middle_pass
      ∙ buckets-SameItems middle_bits 2048 middle-bounded (cells moved_lower space n) p)

  upper_ready : Summed upper_bits 1024 (cells moved_middle loc n) (buf + upper_table) moved_middle
  upper_ready k lt =
      middle_frame (buf + upper_table + k) (inr (omega arith)) (ground arith)
      ∙ lower_frame (buf + upper_table + k) (inr (omega arith)) (inl (omega arith))
      ∙ upper_summed k lt
      ∙ below-SameItems upper_bits (cells m loc n) (cells moved_middle loc n) k
          (λ p. lower_same p ∙ middle_same p)

  upper_pass :
      cells (distribute upper_bits (buf + upper_table) space loc n moved_middle) space n
      ≡ buckets upper_bits 1024 (cells moved_middle loc n)
  upper_pass =
      distribute-buckets upper_bits 1024 upper-bounded (buf + upper_table) space loc n moved_middle
        (ground arith) small (λ b le lt. (ground arith, ground arith)) upper_ready

  pub move_elements-passes :
      cells (move_elements loc buf loc buf n m) loc n ≡ radix_passes (cells m loc n)
  unfolding move_elements
  move_elements-passes =
      copy_words-cells loc space n
        (distribute upper_bits (buf + upper_table) space loc n moved_middle) (ground arith)
      ∙ upper_pass
      ∙ ap (buckets upper_bits 1024) (middle_pass ∙ ap (buckets middle_bits 2048) lower_pass)

  pub move_elements-frame :
      (a : ℕ)
      → Outside a loc n
      → Outside a buf (5144 + n)
      → move_elements loc buf loc buf n m a ≡ m a
  unfolding move_elements
  move_elements-frame a out out' =
      copy_words-other loc space n
        (distribute upper_bits (buf + upper_table) space loc n moved_middle) a out
      ∙ distribute-frame upper_bits 1024 upper-bounded (buf + upper_table) space loc n moved_middle
          (ground arith) small (λ b le lt. (ground arith, ground arith)) upper_ready a
          (ground arith) (ground arith)
      ∙ middle_frame a (ground arith) out
      ∙ lower_frame a (ground arith) (ground arith)
