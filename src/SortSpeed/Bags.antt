-- ===== src/SortSpeed/Bags.antt =====
-- What a sort promises: the ascending list of a bag. A bag is a list without its order.
use mbench.Prelude.{
  ℕ, suc, ◌+◌, ◌≡◌, ◌⊎◌, ◌^◌, ◌<◌, ◌≤◌, ◌-◌, sym, ap, ◌∙◌, Bool, List, some, Mem, arith,
}
use mathlib.Core.Quot
use mathlib.Core.Quot.{Quot}
use native.Mathlib.Nat.{ℕ_set}
use mbench.SortSpeed.Items.{tally, SameItems, Ascending, Ascending-unique}
use mbench.SortSpeed.Windows.{cells}
use mbench.SortSpeed.Radix.{radix_sort, middle_bits}
use mbench.SortSpeed.Radix.Sorts.{radix_sort-Ascending}
use mbench.SortSpeed.Quick.{qs_recsv}
use mbench.SortSpeed.Quick.Sorts.{qs_recsv-Sorts}

abbrev pub Bag : Type 0
Bag = Quot SameItems

abbrev pub bag : List ℕ → Bag
bag xs = Quot.mk xs

-- How many items of a bag pass the test.
tally_of : (ℕ → Bool) → Bag → ℕ
tally_of p = Quot.lift ℕ_set (tally p) (λ xs ys same. same p)

-- The list holds the items of the bag, in order.
abbrev pub SortedFrom : Bag → List ℕ → Type 0
SortedFrom b ys = (bag ys ≡ b) × Ascending (λ x. x) ys

bag-SameItems : (xs ys : List ℕ) → bag xs ≡ bag ys → SameItems xs ys
unfolding tally_of
bag-SameItems xs ys e p = ap (tally_of p) e

SortedFrom-unique : (b : Bag) (xs ys : List ℕ) → SortedFrom b xs → SortedFrom b ys → xs ≡ ys
SortedFrom-unique b xs ys (e, up) (e', up') =
    Ascending-unique xs ys up up' (bag-SameItems xs ys (e ∙ sym e'))

module _ (loc buf n idx : ℕ) (m : Mem) (apart : (buf + 5144 + n ≤ loc) ⊎ (loc + n ≤ buf))
    (some_elements : 0 < n) (small : n < 2 ^ 31) (inside : idx < 5144 + n)
    (last_inside : middle_bits (m (loc + (n - 1))) < 1032 + n)
    (zeroed : (i : ℕ) → i < 5144 → m (buf + i) ≡ 0)
    (words : (a : ℕ) → loc ≤ a → a < loc + n → m a < 2 ^ 32) where
  -- If `radix_sort` is called on the global arrays, the buffer does not overlap the array, its
  -- tables are zeroed, the uninitialised `idx` is an index into it, and so is the one that the
  -- third reset uses, then an array of at least one and fewer than 2^31 elements, all below 2^32,
  -- holds afterwards an ascending list of the same bag, and every ascending list of that bag is
  -- this one.
  pub radix_sort_refines :
      SortedFrom (bag (cells m loc n)) (cells (radix_sort loc buf loc buf n idx m) loc n)
      × ((ys : List ℕ)
          → SortedFrom (bag (cells m loc n)) ys
          → ys ≡ cells (radix_sort loc buf loc buf n idx m) loc n)
  radix_sort_refines =
      let (same, up) =
        radix_sort-Ascending loc buf n idx m apart some_elements small inside last_inside zeroed
          words in
      let sorted : SortedFrom (bag (cells m loc n))
          (cells (radix_sort loc buf loc buf n idx m) loc n) =
        (Quot.sound same, up) in
      (sorted, λ ys other. SortedFrom-unique (bag (cells m loc n)) ys _ other sorted)

  -- Under the same conditions, and for an array at a nonzero address, `qs_recsv` with one more
  -- unit of fuel than there are elements returns and leaves the same elements in the array as
  -- `radix_sort`.
  pub radix_sort-qs_recsv :
      0 < loc
      → (m' : Mem) × (qs_recsv (suc n) m loc n ≡ some m')
        × (cells (radix_sort loc buf loc buf n idx m) loc n ≡ cells m' loc n)
  radix_sort-qs_recsv somewhere =
      let (m', e, sorts) = qs_recsv-Sorts (suc n) m loc n somewhere (omega arith) in
      let (same, up) =
        radix_sort-Ascending loc buf n idx m apart some_elements small inside last_inside zeroed
          words in
      (m', e, Ascending-unique _ _ up sorts.up (λ p. same p ∙ sym (sorts.same p)))
