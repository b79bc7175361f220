-- ===== src/SortSpeed/Buckets.antt =====
-- What one pass of a radix sort makes of a list: the elements with the least key, in their order,
-- then those with the next key, and so on. It is the description that the loops are compared with.
use mbench.Prelude.{
  ℕ, zero, suc, ◌+◌, ◌≤◌, ◌<◌, ◌≡◌, refl, sym, ap, ◌∙◌, Bool, true, false, List, [], ◌∷◌, ◌++◌, All,
  length, if◌then◌else◌, ◌==◌, ==_iff, total, total-congr, total-change, total-zero, dec_lt, arith,
}
use mbench.SortSpeed.Items.{
  tally, tally-append, SameItems, Ascending, Ascending-append, filter, length-filter, All-filter,
  All-append, All-map,
}

abbrev pub bucket : (ℕ → ℕ) → ℕ → List ℕ → List ℕ
bucket key k xs = filter (λ x. key x == k) xs

abbrev pub buckets : (ℕ → ℕ) → ℕ → List ℕ → List ℕ
buckets key zero xs = []
buckets key (suc k) xs = buckets key k xs ++ bucket key k xs

-- How many elements have the key `k`, and how many have a lesser one.
abbrev pub with_key : (ℕ → ℕ) → List ℕ → ℕ → ℕ
with_key key xs k = tally (λ x. key x == k) xs

abbrev pub below : (ℕ → ℕ) → List ℕ → ℕ → ℕ
below key xs k = total k (with_key key xs)

module _ (key : ℕ → ℕ) (p : ℕ → Bool) where
  tally-bucket_cons :
      (k x : ℕ) (xs : List ℕ)
      → tally p (bucket key k (x ∷ xs))
        ≡ (if key x == k then if p x then 1 else 0 else 0) + tally p (bucket key k xs)
  tally-bucket_cons k x xs = by_test (key x == k)
    where
      by_test :
          (b : Bool)
          → tally p (if b then x ∷ bucket key k xs else bucket key k xs)
            ≡ (if b then if p x then 1 else 0 else 0) + tally p (bucket key k xs)
      by_test true = refl
      by_test false = omega arith

  pub tally-buckets :
      (keys : ℕ) (xs : List ℕ)
      → tally p (buckets key keys xs) ≡ total keys (λ k. tally p (bucket key k xs))
  tally-buckets zero xs = refl
  tally-buckets (suc k) xs =
      tally-append p (buckets key k xs) (bucket key k xs)
      ∙ ap (λ w. w + tally p (bucket key k xs)) (tally-buckets k xs)

  total-buckets :
      (keys : ℕ) (xs : List ℕ)
      → ((x : ℕ) → key x < keys)
      → total keys (λ k. tally p (bucket key k xs)) ≡ tally p xs
  total-buckets keys [] bounded = total-zero keys _ (λ k lt. refl)
  total-buckets keys (x ∷ xs) bounded =
      let change =
        total-change keys (λ k. tally p (bucket key k (x ∷ xs))) (λ k. tally p (bucket key k xs))
          (key x) (bounded x) (λ j ne. let one = tally-bucket_cons j x xs in grind arith) in
      let here = tally-bucket_cons (key x) x xs in
      let rest = total-buckets keys xs bounded in grind arith

-- A pass only rearranges.
pub buckets-SameItems :
    (key : ℕ → ℕ) (keys : ℕ)
    → ((x : ℕ) → key x < keys)
    → (xs : List ℕ) → SameItems (buckets key keys xs) xs
buckets-SameItems key keys bounded xs p =
    tally-buckets key p keys xs ∙ total-buckets key p keys xs bounded

tally-true : (xs : List ℕ) → tally (λ x. true) xs ≡ length xs
tally-true [] = refl
tally-true (x ∷ xs) = omega (arith, tally-true xs)

-- Every element has one of the keys.
pub below_keys :
    (key : ℕ → ℕ) (keys : ℕ)
    → ((x : ℕ) → key x < keys)
    → (xs : List ℕ) → below key xs keys ≡ length xs
below_keys key keys bounded xs =
    total-congr keys (with_key key xs) (λ k. tally (λ x. true) (bucket key k xs))
      (λ k lt. sym (tally-true (bucket key k xs) ∙ length-filter (λ x. key x == k) xs))
    ∙ total-buckets key (λ x. true) keys xs bounded
    ∙ tally-true xs

pub below_mono : (key : ℕ → ℕ) (xs : List ℕ) (k j : ℕ) → k ≤ j → below key xs k ≤ below key xs j
below_mono key xs k zero le = let e : k ≡ 0 = omega arith in rw e (omega arith)
below_mono key xs k (suc j) le = elim (dec_lt k (suc j)) [
  | yes lt ↦ let up = below_mono key xs k j (omega arith) in omega (arith, up)
  | no ge ↦ let e : k ≡ suc j = omega (arith, ge) in rw e (omega arith)
]

module _ (key f g : ℕ → ℕ) where
  -- Elements with the same key that ascend by `f` ascend by `g`.
  bucket-Ascending :
      (k : ℕ)
      → ((x y : ℕ) → key x ≡ key y → f x ≤ f y → g x ≤ g y)
      → (xs : List ℕ) → Ascending f xs
      → Ascending g (bucket key k xs)
  bucket-Ascending k same [] up = tt
  bucket-Ascending k same (x ∷ xs) (here, up) =
      by_test (key x == k) refl (bucket-Ascending k same xs up)
    where
      by_test :
          (b : Bool)
          → (key x == k) ≡ b
          → Ascending g (bucket key k xs)
          → Ascending g (if b then x ∷ bucket key k xs else bucket key k xs)
      by_test true e others = (
        All-map (λ y (e', le). same x y ((==_iff (key x) k).0 e ∙ sym ((==_iff (key y) k).0 e')) le)
            (bucket key k xs) (All-filter (λ y. f x ≤ f y) (λ y. key y == k) xs here),
        others,
      )
      by_test false e others = others

  All-bucket : (k : ℕ) (xs : List ℕ) → All (λ x. key x ≡ k) (bucket key k xs)
  All-bucket k [] = tt
  All-bucket k (x ∷ xs) = by_test (key x == k) refl (All-bucket k xs)
    where
      by_test :
          (b : Bool)
          → (key x == k) ≡ b
          → All (λ y. key y ≡ k) (bucket key k xs)
          → All (λ y. key y ≡ k) (if b then x ∷ bucket key k xs else bucket key k xs)
      by_test true e others = ((==_iff (key x) k).0 e, others)
      by_test false e others = others

  All-buckets : (keys : ℕ) (xs : List ℕ) → All (λ x. key x < keys) (buckets key keys xs)
  All-buckets zero xs = tt
  All-buckets (suc k) xs =
      All-append (λ x. key x < suc k) (buckets key k xs) (bucket key k xs)
        (All-map (λ x lt. omega arith) (buckets key k xs) (All-buckets k xs))
        (All-map (λ x e. omega (arith, e)) (bucket key k xs) (All-bucket k xs))

  -- A pass over a list that ascends by the lower digits leaves one that ascends by the key and
  -- the lower digits.
  pub buckets-Ascending :
      (keys : ℕ)
      → ((x y : ℕ) → key x ≡ key y → f x ≤ f y → g x ≤ g y)
      → ((x y : ℕ) → key x < key y → g x ≤ g y)
      → (xs : List ℕ) → Ascending f xs
      → Ascending g (buckets key keys xs)
  buckets-Ascending zero same less xs up = tt
  buckets-Ascending (suc k) same less xs up =
      Ascending-append g (buckets key k xs) (bucket key k xs) (buckets-Ascending k same less xs up)
        (bucket-Ascending k same xs up)
        (All-map
          (λ x lt.
            All-map (λ y e. less x y (omega (arith, lt, e))) (bucket key k xs) (All-bucket k xs))
          (buckets key k xs) (All-buckets k xs))
