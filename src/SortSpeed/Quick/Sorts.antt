-- ===== src/SortSpeed/Quick/Sorts.antt =====
-- `qs_recsv` sorts.
use mbench.Prelude.{
  ℕ, zero, suc, ◌+◌, ◌-◌, ◌≤◌, ◌<◌, ◌≡◌, inl, inr, refl, sym, Option, some, Mem, dec_lt, arith,
}
use mbench.SortSpeed.Items.{SameItems}
use mbench.SortSpeed.Windows.{cells}
use mbench.SortSpeed.Joins.{Sorts, few-Sorts, lower_first-Sorts, SameItems-Sorts, same_range}
use mbench.SortSpeed.Quick.{Bounds, scalar_partition_epi32, recurse, qs_recsv}
use mbench.SortSpeed.Quick.Partitions.{Split, partition_ends}

abbrev begin : Mem → ℕ → ℕ → Bounds
begin m a n = record { right = a; left = a + n - 1; mem = m }

-- The partition of a call of `qs_recsv` ends, and both parts are shorter than the whole.
partition_of_call :
    (fuel : ℕ) (m : Mem) (a n : ℕ)
    → (somewhere : 0 < a) → n < fuel
    → (s : Bounds) × (scalar_partition_epi32 fuel fuel (m a) (begin m a n) ≡ some s)
      × Split (m a) a (a + n - 1) m somewhere s
      × (s.left < s.right)
      × (a ≤ s.left → s.left < a + n - 1)
      × (s.right < a + n → a < s.right)
partition_of_call fuel m a n somewhere lt =
    let (s, e, split, moved, done) =
      partition_ends (m a) a (a + n - 1) m somewhere fuel fuel (begin m a n) (omega arith)
        (omega arith) (omega arith)
        (record {
          low = omega arith;
          high = omega arith;
          near = omega arith;
          end = omega arith;
          below = λ c le lt'. absurd (omega arith);
          above = λ c lt' le. absurd (omega arith);
          same = λ p. refl;
          frame = λ b out. refl;
        })
        (inr (refl, refl, refl))
        (λ on. record {
          up = a;
          up_in = (omega arith, on);
          up_large = omega arith;
          down = a;
          down_in = (omega arith, on);
          down_small = omega arith;
        }) in
    (
      s,
      e,
      split,
      done,
      (λ le. elim moved [
        | inl (up, down) ↦ down
        | inr (at_first, at_last, is_pivot) ↦ absurd (omega (arith, le, at_first, at_last, done))
      ]),
      λ lt'. elim moved [
        | inl (up, down) ↦ up
        | inr (at_first, at_last, is_pivot) ↦ absurd (omega (arith, lt', at_first, at_last, done))
      ],
    )

recurse-Sorts :
    (sort : Mem → ℕ → ℕ → Option Mem) (first last : ℕ) (m : Mem)
    → (first < last
        → (m' : Mem) × (sort m first (last + 1 - first) ≡ some m')
          × Sorts (λ x. x) m m' first (last + 1 - first))
    → (m' : Mem) × (recurse sort first last m ≡ some m')
      × Sorts (λ x. x) m m' first (last + 1 - first)
recurse-Sorts sort first last m sorted = elim (dec_lt first last) [
  | yes lt ↦ let (m', e, sorts) = sorted lt in (m', (let e' = e in ground arith), sorts)
  | no ge ↦ (m, ground arith, few-Sorts (λ x. x) m first (last + 1 - first) (omega (arith, ge)))
]

same_size :
    (m m' : Mem) (a n k : ℕ)
    → n ≡ k
    → SameItems (cells m' a n) (cells m a n)
    → SameItems (cells m' a k) (cells m a k)
same_size m m' a n k e same = rw (sym e) same

-- Both parts of the partition sorted.
whole :
    (m : Mem) (a n : ℕ) (somewhere : 0 < a) (s : Bounds)
    → Split (m a) a (a + n - 1) m somewhere s
    → s.left < s.right
    → (m' m'' : Mem) → Sorts (λ x. x) s.mem m' a (s.left + 1 - a)
    → Sorts (λ x. x) m' m'' s.right (a + n - 1 + 1 - s.right)
    → Sorts (λ x. x) m m'' a n
whole m a n somewhere s split done m' m'' lower upper =
    let k = s.left + 1 - a in
    let gap = s.right - (s.left + 1) in
    let j = a + n - 1 + 1 - s.right in
    let low = split.low in
    let near = split.near in
    let high = split.high in
    let end = split.end in
    let size : a + n - 1 + 1 - a ≡ n = omega arith in
    let parts : n ≡ k + (gap + j) = omega arith in
    let start : s.right ≡ a + k + gap = omega arith in
    SameItems-Sorts (λ x. x) m s.mem m'' a n
      (same_size m s.mem a (a + n - 1 + 1 - a) n size split.same)
      (λ b out. split.frame b (ground arith))
      (same_range (λ x. x) s.mem m'' m'' a a (k + (gap + j)) n refl (sym parts) refl
        (lower_first-Sorts (λ x. x) (m a) s.mem m'' a k gap j m' lower
          (same_range (λ x. x) m' m'' m'' s.right (a + k + gap) j j start refl refl upper)
          (λ c le lt. split.below c le (omega arith))
          (λ c le lt. split.above c (omega arith) (omega arith))))

-- With more fuel than there are elements, and an array at a nonzero address, `qs_recsv` returns,
-- the elements of the array are rearranged so that they ascend, and no other word is changed.
pub qs_recsv-Sorts :
    (fuel : ℕ) (m : Mem) (a n : ℕ)
    → 0 < a
    → n < fuel
    → (m' : Mem) × (qs_recsv fuel m a n ≡ some m') × Sorts (λ x. x) m m' a n
unfolding qs_recsv
qs_recsv-Sorts zero m a n somewhere lt = absurd (omega arith)
qs_recsv-Sorts (suc fuel) m a n somewhere lt =
    let (s, e, split, done, shorter, shorter') = partition_of_call (suc fuel) m a n somewhere lt in
    let (m', e', lower) = recurse-Sorts (qs_recsv fuel) a s.left s.mem λ lt'.
      qs_recsv-Sorts fuel s.mem a (s.left + 1 - a) somewhere
        (omega (arith, shorter (omega arith))) in
    let (m'', e'', upper) = recurse-Sorts (qs_recsv fuel) s.right (a + n - 1) m' λ lt'.
      qs_recsv-Sorts fuel m' s.right (a + n - 1 + 1 - s.right) (omega arith)
        (omega (arith, shorter' (omega arith))) in
    (m'', rw (e, e') e'', whole m a n somewhere s split done m' m'' lower upper)
