-- ===== src/SortSpeed/Radix/Counting.antt =====
-- The loops of `radix_sort` that count the keys and add the counts up.
use mbench.Prelude.{
  ℕ, zero, suc, ◌+◌, ◌-◌, ◌%◌, ◌^◌, ◌≤◌, ◌<◌, ◌≡◌, ◌≢◌, ◌⊎◌, inl, refl, ap, ◌∙◌, Mem, store,
  store-ne, if◌then◌else◌, ◌==◌, dec_lt, arith,
}
use mbench.SortSpeed.Items.{tally}
use mbench.SortSpeed.Buckets.{with_key}
use mbench.SortSpeed.Windows.{Outside, cells, cells-congr}
use mbench.SortSpeed.Radix.{State, reset, count_one, count, accumulate}

module _ (key : ℕ → ℕ) (keys : ℕ) (bounded : (x : ℕ) → key x < keys) (tbl : ℕ) where
  count_one-other :
      (src a : ℕ) (s : State)
      → (a ≤ tbl) ⊎ (tbl + keys < a)
      → (count_one key tbl src s).mem a ≡ s.mem a
  unfolding count_one
  count_one-other src a s out =
      let b = bounded (s.mem src) in
      store-ne s.mem (tbl + suc (key (s.mem src))) _ a (λ e. ground arith)

  pub count-other :
      (src n a : ℕ) (s : State)
      → (a ≤ tbl) ⊎ (tbl + keys < a)
      → (count key tbl src n s).mem a ≡ s.mem a
  unfolding count
  count-other src zero a s out = refl
  count-other src (suc n) a s out =
      count-other (suc src) n a (count_one key tbl src s) out ∙ count_one-other src a s out

  count_one-counter :
      (src k : ℕ) (s : State)
      → s.mem (tbl + suc k) + 1 < 2 ^ 32
      → (count_one key tbl src s).mem (tbl + suc k)
        ≡ (if key (s.mem src) == k then 1 else 0) + s.mem (tbl + suc k)
  unfolding count_one
  count_one-counter src k s small = grind arith

  pub count-counter :
      (src n k : ℕ) (s : State)
      → (src + n ≤ suc tbl) ⊎ (tbl + keys < src)
      → s.mem (tbl + suc k) + n < 2 ^ 32
      → (count key tbl src n s).mem (tbl + suc k)
        ≡ s.mem (tbl + suc k) + tally (λ x. key x == k) (cells s.mem src n)
  unfolding count
  count-counter src zero k s out small = omega arith
  count-counter src (suc n) k s out small =
      let s' = count_one key tbl src s in
      let one = count_one-counter src k s (omega arith) in
      let same =
        cells-congr s'.mem s.mem (suc src) (suc src) n
          λ i lt. count_one-other src (suc src + i) s (ground arith) in
      let rest = count-counter (suc src) n k s' (ground arith) (ground arith) in
      omega (arith, one, rest, ap (tally (λ x. key x == k)) same)

  count_one-idx : (src : ℕ) (s : State) → (count_one key tbl src s).idx ≡ key (s.mem src)
  unfolding count_one
  count_one-idx src s = refl

  -- After the loop `idx` is the key of the last element.
  pub count-idx :
      (src n : ℕ) (s : State)
      → (src + suc n ≤ suc tbl) ⊎ (tbl + keys < src)
      → (count key tbl src (suc n) s).idx ≡ key (s.mem (src + n))
  unfolding count
  count-idx src zero s out = count_one-idx src s ∙ ap (λ a. key (s.mem a)) (omega arith)
  count-idx src (suc n) s out =
      count-idx (suc src) n (count_one key tbl src s) (ground arith)
      ∙ ap key (
          ap (count_one key tbl src s).mem (omega arith)
          ∙ count_one-other src (src + suc n) s (ground arith))

pub reset-other : (tbl a : ℕ) (s : State) → tbl + s.idx ≢ a → (reset tbl s).mem a ≡ s.mem a
unfolding reset
reset-other tbl a s ne = store-ne s.mem (tbl + s.idx) 0 a ne

-- A word that is 0 stays 0.
pub reset-zero : (tbl a : ℕ) (s : State) → s.mem a ≡ 0 → (reset tbl s).mem a ≡ 0
unfolding reset
reset-zero tbl a s z = ground arith

pub accumulate-other :
    (tbl idx n : ℕ) (m : Mem) (a : ℕ)
    → (a < tbl + idx) ⊎ (tbl + idx + n ≤ a)
    → accumulate tbl idx n m a ≡ m a
unfolding accumulate
accumulate-other tbl idx zero m a out = refl
accumulate-other tbl idx (suc n) m a out =
    accumulate-other tbl (suc idx) n _ a (ground arith)
    ∙ store-ne m (tbl + idx) _ a (λ e. ground arith)

-- `sums` adds up the words from `idx` on, and its value before `idx` is in place.
pub accumulate-sums :
    (tbl idx n : ℕ) (m : Mem) (sums : ℕ → ℕ)
    → m (tbl + idx) ≡ sums idx
    → ((j : ℕ) → idx ≤ j → j < idx + n → sums j + m (tbl + suc j) ≡ sums (suc j))
    → ((j : ℕ) → j ≤ idx + n → sums j < 2 ^ 32)
    → (k : ℕ) → idx ≤ k
    → k ≤ idx + n
    → accumulate tbl (suc idx) n m (tbl + k) ≡ sums k
unfolding accumulate
accumulate-sums tbl idx zero m sums first step small k low high =
    ap (λ j. m (tbl + j)) (omega arith) ∙ first ∙ ap sums (omega arith)
accumulate-sums tbl idx (suc n) m sums first step small k low high = elim (dec_lt idx k) [
  | yes lt ↦
      accumulate-sums tbl (suc idx) n m' sums (placed (step idx (omega arith) (omega arith)))
        (λ j le lt'.
          ap (λ w. sums j + w) (store-ne m (tbl + suc idx) _ (tbl + suc j) (λ e. omega (arith, e)))
          ∙ step j (omega arith) (omega arith))
        (λ j le. small j (omega arith)) k lt (omega arith)
  | no ge ↦
      accumulate-other tbl (suc (suc idx)) n m' (tbl + k) (inl (omega (arith, ge)))
      ∙ store-ne m (tbl + suc idx) _ (tbl + k) (λ e. omega (arith, e, ge))
      ∙ ap (λ j. m (tbl + j)) (omega (arith, ge))
      ∙ first
      ∙ ap sums (omega (arith, ge))
]
  where
    m' : Mem
    m' = store m (tbl + suc idx) ((m (tbl + (suc idx - 1)) + m (tbl + suc idx)) % 2 ^ 32)

    placed : sums idx + m (tbl + suc idx) ≡ sums (suc idx) → m' (tbl + suc idx) ≡ sums (suc idx)
    placed e = let lt = small (suc idx) (omega arith) in grind arith

-- A loop that counts keys, after its reset, over elements that neither of them touches.
module _ (key : ℕ → ℕ) (keys : ℕ) (bounded : (x : ℕ) → key x < keys) (tbl loc n : ℕ) (s : State)
    (apart : (loc + n ≤ tbl) ⊎ (tbl + keys < loc)) where
  pub counting-other :
      (a : ℕ)
      → (a ≤ tbl) ⊎ (tbl + keys < a)
      → tbl + s.idx ≢ a
      → (count key tbl loc n (reset tbl s)).mem a ≡ s.mem a
  counting-other a out ne =
      count-other key keys bounded tbl loc n a (reset tbl s) out ∙ reset-other tbl a s ne

  pub counting-zero :
      (a : ℕ)
      → (a ≤ tbl) ⊎ (tbl + keys < a)
      → s.mem a ≡ 0
      → (count key tbl loc n (reset tbl s)).mem a ≡ 0
  counting-zero a out z =
      count-other key keys bounded tbl loc n a (reset tbl s) out ∙ reset-zero tbl a s z

  reset-elements : Outside (tbl + s.idx) loc n → cells (reset tbl s).mem loc n ≡ cells s.mem loc n
  reset-elements out =
      cells-congr (reset tbl s).mem s.mem loc loc n
        λ i lt. reset-other tbl (loc + i) s (λ e. ground arith)

  pub counting-elements :
      Outside (tbl + s.idx) loc n
      → cells (count key tbl loc n (reset tbl s)).mem loc n ≡ cells s.mem loc n
  counting-elements out =
      cells-congr (count key tbl loc n (reset tbl s)).mem s.mem loc loc n
        λ i lt. counting-other (loc + i) (ground arith) (λ e. ground arith)

  pub counting-counter :
      n < 2 ^ 32
      → Outside (tbl + s.idx) loc n
      → (k : ℕ) → s.mem (tbl + suc k) ≡ 0
      → (count key tbl loc n (reset tbl s)).mem (tbl + suc k) ≡ with_key key (cells s.mem loc n) k
  counting-counter small out k z =
      let z' = reset-zero tbl (tbl + suc k) s z in
      let counted =
        count-counter key keys bounded tbl loc n k (reset tbl s) (ground arith)
          (omega (arith, z')) in
      let same = ap (λ xs. with_key key xs k) (reset-elements out) in
      omega (arith, counted, z', same)

  pub counting-idx :
      0 < n
      → Outside (tbl + s.idx) loc n
      → (count key tbl loc n (reset tbl s)).idx ≡ key (s.mem (loc + (n - 1)))
  counting-idx = by_length n apart
    where
      by_length :
          (n : ℕ)
          → (loc + n ≤ tbl) ⊎ (tbl + keys < loc)
          → 0 < n
          → Outside (tbl + s.idx) loc n
          → (count key tbl loc n (reset tbl s)).idx ≡ key (s.mem (loc + (n - 1)))
      by_length zero apart lt out = absurd (omega arith)
      by_length (suc c) apart lt out =
          count-idx key keys bounded tbl loc c (reset tbl s) (ground arith)
          ∙ ap key (
              reset-other tbl (loc + c) s (λ e. ground arith)
              ∙ ap (λ i. s.mem (loc + i)) (omega arith))
