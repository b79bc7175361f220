-- ===== src/SortSpeed/Programs/Cases.antt =====
-- The test case of the radix sort as a whole: the filled array is sorted.
use mbench.Prelude.{
  ℕ, zero, suc, ◌+◌, ◌-◌, ◌*◌, ◌%◌, ◌^◌, ◌≤◌, ◌<◌, ◌≡◌, ◌⊎◌, inl, refl, ap, ◌∙◌, Mem, store,
  store_self, store-ne, dec_lt, arith,
}
use mbench.SortSpeed.Items.{tally, SameItems, Ascending}
use mbench.SortSpeed.Windows.{Outside, cells, cells-congr}
use mbench.SortSpeed.Benchmark.{clear, fill_mt, store64}
use mbench.SortSpeed.Radix.{table_words}
use mbench.SortSpeed.Radix.Counted.{middle-bounded}
use mbench.SortSpeed.Radix.Sorts.{radix_sort-Ascending}
use mbench.SortSpeed.Programs.{radix_case}

clear-other : (a n : ℕ) (m : Mem) (b : ℕ) → Outside b a n → clear a n m b ≡ m b
unfolding clear
clear-other a zero m b out = refl
clear-other a (suc n) m b out =
    clear-other (suc a) n (store m a 0) b (ground arith) ∙ store-ne m a 0 b (λ e. ground arith)

clear-zero : (a n : ℕ) (m : Mem) (i : ℕ) → i < n → clear a n m (a + i) ≡ 0
unfolding clear
clear-zero a zero m i lt = absurd (omega arith)
clear-zero a (suc n) m i lt = elim (dec_lt 0 i) [
  | yes later ↦
      let e : a + i ≡ suc a + (i - 1) = omega (arith, later) in
      ap (clear (suc a) n (store m a 0)) e
      ∙ clear-zero (suc a) n (store m a 0) (i - 1) (omega arith)
  | no first ↦
      let e : a + i ≡ a = omega (arith, first) in
      ap (clear (suc a) n (store m a 0)) e
      ∙ clear-other (suc a) n (store m a 0) a (inl (omega arith))
      ∙ store_self m a 0
]

-- For an array of 1016 elements or more, fewer than 2^31, all 32-bit words, and a buffer that does
-- not overlap it, the test case leaves the array's elements in ascending order, whatever the buffer
-- held, if the uninitialised `idx` is an index into the buffer.
pub radix_case-Ascending :
    (ptr ptrd n idx : ℕ) (m : Mem)
    → (ptrd + 5144 + n ≤ ptr) ⊎ (ptr + n ≤ ptrd)
    → 1016 ≤ n
    → n < 2 ^ 31
    → idx < 5144 + n
    → ((a : ℕ) → m a < 2 ^ 32)
    → SameItems (cells (radix_case ptr ptrd n idx m) ptr n) (cells m ptr n)
      × Ascending (λ x. x) (cells (radix_case ptr ptrd n idx m) ptr n)
unfolding radix_case
radix_case-Ascending ptr ptrd n idx m apart large small inside words =
    let cleared = clear ptrd table_words m in
    let kept : (a : ℕ) → ptr ≤ a → a < ptr + n → cleared a ≡ m a =
      λ a le lt. clear-other ptrd table_words m a (ground arith) in
    let same = cells-congr cleared m ptr ptr n λ i lt. kept (ptr + i) (omega arith) (omega arith) in
    let bounded = middle-bounded (cleared (ptr + (n - 1))) in
    let (items, up) =
      radix_sort-Ascending ptr ptrd n idx cleared apart (omega arith) small inside (omega arith)
        (λ i lt. clear-zero ptrd table_words m i lt)
        (λ a le lt. omega (arith, kept a le lt, words a)) in
    ((λ p. items p ∙ ap (tally p) same), up)

fill_mt-other :
    (mt_rand : ℕ → ℕ) (i pos steps : ℕ) (m : Mem) (b : ℕ)
    → b < pos
    → fill_mt mt_rand i pos steps m b ≡ m b
unfolding fill_mt
fill_mt-other mt_rand i pos zero m b lt = refl
fill_mt-other mt_rand i pos (suc steps) m b lt =
    let m' = store64 m pos (mt_rand i % 2 ^ 32) in
    fill_mt-other mt_rand (suc i) (pos + 2) steps m' b (omega arith)
    ∙ store-ne (store m pos (mt_rand i % 2 ^ 32 % 2 ^ 32)) (pos + 1) _ b (λ e. omega (arith, e))
    ∙ store-ne m pos _ b (λ e. omega (arith, e))

-- Every other word that the portable program fills in is 0, whatever the generator gives.
pub fill_mt_zero :
    (mt_rand : ℕ → ℕ) (i pos steps : ℕ) (m : Mem) (k : ℕ)
    → k < steps
    → fill_mt mt_rand i pos steps m (pos + 2 * k + 1) ≡ 0
unfolding fill_mt
fill_mt_zero mt_rand i pos zero m k lt = absurd (omega arith)
fill_mt_zero mt_rand i pos (suc steps) m k lt = elim (dec_lt 0 k) [
  | yes later ↦
      let m' = store64 m pos (mt_rand i % 2 ^ 32) in
      let e : pos + 2 * k + 1 ≡ pos + 2 + 2 * (k - 1) + 1 = omega (arith, later) in
      ap (fill_mt mt_rand (suc i) (pos + 2) steps m') e
      ∙ fill_mt_zero mt_rand (suc i) (pos + 2) steps m' (k - 1) (omega arith)
  | no first ↦
      let m' = store64 m pos (mt_rand i % 2 ^ 32) in
      let e : pos + 2 * k + 1 ≡ pos + 1 = omega (arith, first) in
      ap (fill_mt mt_rand (suc i) (pos + 2) steps m') e
      ∙ fill_mt-other mt_rand (suc i) (pos + 2) steps m' (pos + 1) (omega arith)
      ∙ store_self (store m pos (mt_rand i % 2 ^ 32 % 2 ^ 32)) (pos + 1) _
      ∙ (omega arith)
]
