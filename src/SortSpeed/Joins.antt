-- ===== src/SortSpeed/Joins.antt =====
-- A range of the memory that a sort has put in order, and how two sorted parts of a partition make
-- a sorted whole.
use mbench.Prelude.{
  ℕ, zero, suc, ◌+◌, ◌≤◌, ◌<◌, ◌≡◌, ◌⊎◌, inl, inr, refl, sym, ap, ◌∙◌, Bool, List, [], ◌∷◌, ◌++◌,
  All, Mem, arith,
}
use mbench.SortSpeed.Items.{
  tally, tally-append, SameItems, Ascending, Ascending-append, All-map, All-append, All-SameItems,
}
use mbench.SortSpeed.Windows.{Outside, cells, cells-congr, cells-append, All-cells}

-- From `m` to `m'` the `n` elements from `a` are rearranged so that they ascend by `f`, and
-- nothing else changes.
pub record Sorts (f : ℕ → ℕ) (m m' : Mem) (a n : ℕ) : Type 0 where
  pub same : SameItems (cells m' a n) (cells m a n)
  pub up : Ascending f (cells m' a n)
  pub frame : (b : ℕ) → Outside b a n → m' b ≡ m b

pub few-Sorts : (f : ℕ → ℕ) (m : Mem) (a n : ℕ) → n ≤ 1 → Sorts f m m a n
few-Sorts f m a zero le = record { same = λ p. refl; up = tt; frame = λ b out. refl }
few-Sorts f m a (suc zero) le = record { same = λ p. refl; up = (tt, tt); frame = λ b out. refl }
few-Sorts f m a (suc (suc n)) le = absurd (omega arith)

-- Every pair of a list below the bound and one above it is in order.
All-between :
    (f : ℕ → ℕ) (bound : ℕ) (xs ys : List ℕ)
    → All (λ x. f x ≤ bound) xs
    → All (λ y. bound ≤ f y) ys
    → All (λ x. All (λ y. f x ≤ f y) ys) xs
All-between f bound xs ys low high =
    All-map (λ x le. All-map (λ y le'. omega (arith, le, le')) ys high) xs low

level-Ascending :
    (f : ℕ → ℕ) (bound : ℕ) (xs : List ℕ)
    → All (λ x. f x ≤ bound) xs
    → All (λ x. bound ≤ f x) xs
    → Ascending f xs
level-Ascending f bound [] low high = tt
level-Ascending f bound (x ∷ xs) (le, low) (ge, high) =
    (All-map (λ y le'. omega (arith, le, le')) xs high, level-Ascending f bound xs low high)

-- The parts `xs`, `ys` and `zs` of a partition around `bound`, once `xs` and `zs` are sorted.
module _ (f : ℕ → ℕ) (bound : ℕ) (xs xs' ys zs zs' : List ℕ) where
  parts-Ascending :
      SameItems xs' xs
      → SameItems zs' zs
      → Ascending f xs'
      → Ascending f zs'
      → All (λ x. f x ≤ bound) xs
      → All (λ y. f y ≤ bound) ys
      → All (λ y. bound ≤ f y) ys
      → All (λ z. bound ≤ f z) zs
      → Ascending f (xs' ++ (ys ++ zs'))
  parts-Ascending same same' up up' low level level' high =
      let low' = All-SameItems (λ x. f x ≤ bound) xs' xs same low in
      let high' = All-SameItems (λ z. bound ≤ f z) zs' zs same' high in
      Ascending-append f xs' (ys ++ zs') up
        (Ascending-append f ys zs' (level-Ascending f bound ys level level') up'
          (All-between f bound ys zs' level high'))
        (All-between f bound xs' (ys ++ zs') low'
          (All-append (λ y. bound ≤ f y) ys zs' level' high'))

-- The elements from `a` on in three parts of `n`, `k` and `j`.
cells_parts :
    (m : Mem) (a n k j : ℕ)
    → cells m a (n + (k + j)) ≡ cells m a n ++ (cells m (a + n) k ++ cells m (a + n + k) j)
cells_parts m a n k j =
    cells-append m a n (k + j) ∙ ap (λ xs. cells m a n ++ xs) (cells-append m (a + n) k j)

tally-cells_parts :
    (p : ℕ → Bool) (m : Mem) (a n k j : ℕ)
    → tally p (cells m a (n + (k + j)))
      ≡ tally p (cells m a n) + (tally p (cells m (a + n) k) + tally p (cells m (a + n + k) j))
tally-cells_parts p m a n k j =
    ap (tally p) (cells_parts m a n k j)
    ∙ tally-append p (cells m a n) (cells m (a + n) k ++ cells m (a + n + k) j)
    ∙ ap (λ t. tally p (cells m a n) + t)
        (tally-append p (cells m (a + n) k) (cells m (a + n + k) j))

module _ (f : ℕ → ℕ) (bound : ℕ) (m m' : Mem) (a n k j : ℕ) where
  -- What is needed of the memory `m'` after both parts of `m` are sorted.
  pub parts-Sorts :
      SameItems (cells m' a n) (cells m a n)
      → SameItems (cells m' (a + n + k) j) (cells m (a + n + k) j)
      → Ascending f (cells m' a n)
      → Ascending f (cells m' (a + n + k) j)
      → ((b : ℕ) → (b < a) ⊎ (a + n + k + j ≤ b) ⊎ ((a + n ≤ b) × (b < a + n + k)) → m' b ≡ m b)
      → ((c : ℕ) → a ≤ c → c < a + n + k → f (m c) ≤ bound)
      → ((c : ℕ) → a + n ≤ c → c < a + n + k + j → bound ≤ f (m c))
      → Sorts f m m' a (n + (k + j))
  parts-Sorts same same' up up' kept low high = record {
    same = λ p.
        tally-cells_parts p m' a n k j
        ∙ (let e = same p in
            let e' = same' p in let e'' = ap (tally p) level in omega (arith, e, e', e''))
        ∙ sym (tally-cells_parts p m a n k j);
    up =
        rw (cells_parts m' a n k j, level)
          (parts-Ascending f bound (cells m a n) (cells m' a n) (cells m (a + n) k)
            (cells m (a + n + k) j) (cells m' (a + n + k) j) same same' up up'
            (All-cells (λ x. f x ≤ bound) m a n λ c le lt. low c le (omega arith))
            (All-cells (λ x. f x ≤ bound) m (a + n) k λ c le lt. low c (omega arith) lt)
            (All-cells (λ x. bound ≤ f x) m (a + n) k λ c le lt. high c le (omega arith))
            (All-cells (λ x. bound ≤ f x) m (a + n + k) j λ c le lt. high c (omega arith) lt));
    frame = λ b out. kept b (ground arith);
  }
    where
      level : cells m' (a + n) k ≡ cells m (a + n) k
      level =
          cells-congr m' m (a + n) (a + n) k
            λ i lt. kept (a + n + i) (inr (inr (omega arith, omega arith)))

  -- The lower part is sorted first.
  pub lower_first-Sorts :
      (m'' : Mem)
      → Sorts f m m'' a n
      → Sorts f m'' m' (a + n + k) j
      → ((c : ℕ) → a ≤ c → c < a + n + k → f (m c) ≤ bound)
      → ((c : ℕ) → a + n ≤ c → c < a + n + k + j → bound ≤ f (m c))
      → Sorts f m m' a (n + (k + j))
  lower_first-Sorts m'' lower upper low high =
      let kept_lower = cells-congr m' m'' a a n λ i lt. upper.frame (a + i) (inl (omega arith)) in
      let kept_upper =
        cells-congr m'' m (a + n + k) (a + n + k) j
          λ i lt. lower.frame (a + n + k + i) (inr (omega arith)) in
      parts-Sorts (λ p. ap (tally p) kept_lower ∙ lower.same p)
        (λ p. upper.same p ∙ ap (tally p) kept_upper) (rw kept_lower lower.up) upper.up
        (λ b out. upper.frame b (ground arith) ∙ lower.frame b (ground arith)) low high

-- A rearrangement of the range that is then sorted.
pub SameItems-Sorts :
    (f : ℕ → ℕ) (m m' m'' : Mem) (a n : ℕ)
    → SameItems (cells m' a n) (cells m a n)
    → ((b : ℕ) → Outside b a n → m' b ≡ m b)
    → Sorts f m' m'' a n
    → Sorts f m m'' a n
SameItems-Sorts f m m' m'' a n same frame sorts = record {
  same = λ p. sorts.same p ∙ same p;
  up = sorts.up;
  frame = λ b out. sorts.frame b out ∙ frame b out;
}

-- The same range and the same memory, written in another way.
pub same_range :
    (f : ℕ → ℕ) (m m' m'' : Mem) (a b n k : ℕ)
    → a ≡ b
    → n ≡ k
    → m' ≡ m''
    → Sorts f m m' a n
    → Sorts f m m'' b k
same_range f m m' m'' a b n k e e' e'' sorts = rw (sym e, sym e', sym e'') sorts
