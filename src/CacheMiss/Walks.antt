-- ===== src/CacheMiss/Walks.antt =====
-- Where the pointers of `measure_rnd_read` of ParallelCacheMiss.c go.
use mbench.Prelude.{
  ℕ, zero, suc, ◌+◌, ◌*◌, ◌/◌, ◌≤◌, ◌<◌, ◌≡◌, refl, sym, ap, arith, ltb, if◌then◌else◌, Bool-cases,
  inl, inr, Mem, chase,
}
use mathlib.Core.Path.{subst}
use mbench.MemLat.Setup.Invariant.{Cell}
use mbench.CacheMiss.{
  rd_one, rd_five, rd_ten, rd_fifty, rd_hundred, read_inner, read_outer, starts, pointers,
}
use mbench.CacheMiss.Inside.{Inside, chase-Inside}

module _ (m : Mem) (prl : ℕ) (p0 : ℕ → ℕ) where
  -- After `n` steps the pointers that move are `n` links on, and the others where they began.
  abbrev Along : ℕ → (ℕ → ℕ) → Type 0
  Along n p = (j : ℕ) → p j ≡ (if ltb j (pointers prl) then chase m n (p0 j) else p0 j)

  one-Along : (n : ℕ) (p : ℕ → ℕ) → Along n p → Along (suc n) (rd_one m prl p)
  unfolding rd_one
  one-Along n p al j = elim (Bool-cases (ltb j (pointers prl))) [
    | inl t ↦ let e : p j ≡ chase m n (p0 j) = rw t at (al j) in rw t (ap m e)
    | inr f ↦ rw f (rw f at (al j))
  ]

  -- The macro makes `n` steps.
  Moves : ℕ → ((ℕ → ℕ) → ℕ → ℕ) → Type 0
  Moves n f = (k : ℕ) (p : ℕ → ℕ) → Along k p → Along (n + k) (f p)

  both : (a b : ℕ) (f g : (ℕ → ℕ) → ℕ → ℕ) → Moves a f → Moves b g → Moves (a + b) (λ p. g (f p))
  unfolding Moves
  both a b f g ma mb k p al =
      let e : b + (a + k) ≡ a + b + k = omega arith in
      subst (λ n. Along n (g (f p))) e (mb _ (f p) (ma k p al))

  one : Moves 1 (rd_one m prl)
  unfolding Moves
  one k p al =
      let e : suc k ≡ 1 + k = omega arith in
      subst (λ n. Along n (rd_one m prl p)) e (one-Along k p al)

  five : Moves 5 (rd_five m prl)
  unfolding rd_five
  five = both 1 4 _ _ one (both 1 3 _ _ one (both 1 2 _ _ one (both 1 1 _ _ one one)))

  ten : Moves 10 (rd_ten m prl)
  unfolding rd_ten
  ten = both 5 5 _ _ five five

  fifty : Moves 50 (rd_fifty m prl)
  unfolding rd_fifty
  fifty = both 10 40 _ _ ten (both 10 30 _ _ ten (both 10 20 _ _ ten (both 10 10 _ _ ten ten)))

  hundred : Moves 100 (rd_hundred m prl)
  unfolding rd_hundred
  hundred = both 50 50 _ _ fifty fifty

  inner : (n : ℕ) → Moves (n * 100) (read_inner m prl n)
  unfolding read_inner Moves
  inner zero k p al = let e : k ≡ 0 * 100 + k = omega arith in subst (λ n. Along n p) e al
  inner (suc n) k p al =
      let e : n * 100 + (100 + k) ≡ suc n * 100 + k = omega arith in
      subst (λ i. Along i (read_inner m prl n (rd_hundred m prl p))) e
        (inner n _ _ (hundred k p al))

  outer : (itr1 itr2 : ℕ) → Moves (itr1 * (itr2 * 100)) (read_outer m prl itr1 itr2)
  unfolding read_outer Moves
  outer zero itr2 k p al =
      let e : k ≡ 0 * (itr2 * 100) + k = omega arith in subst (λ n. Along n p) e al
  outer (suc itr1) itr2 k p al =
      let e : itr1 * (itr2 * 100) + (itr2 * 100 + k) ≡ suc itr1 * (itr2 * 100) + k = omega arith in
      subst (λ i. Along i (read_outer m prl itr1 itr2 (read_inner m prl itr2 p))) e
        (outer itr1 itr2 _ _ (inner itr2 k p al))

  outer-Along : (itr1 itr2 : ℕ) → Along (itr1 * (itr2 * 100)) (read_outer m prl itr1 itr2 p0)
  unfolding Moves
  outer-Along itr1 itr2 =
      let e : itr1 * (itr2 * 100) + 0 ≡ itr1 * (itr2 * 100) = omega arith in
      subst (λ n. Along n (read_outer m prl itr1 itr2 p0)) e (outer itr1 itr2 0 p0 begin)
    where
      begin : Along 0 p0
      begin j = elim (Bool-cases (ltb j (pointers prl))) [ inl t ↦ rw t refl | inr f ↦ rw f refl ]

-- In a region of at least 16 segments whose links lead to segments, after the loops of
-- `measure_rnd_read` the pointers that a build for `prl` moves, the first `prl` of them for 16, 12,
-- 8, 6, 4 and 2 and the first alone for every other `prl`, are `itr1 * itr2 * 100` loads on from
-- their starts, one segment apart; the others are still at their starts; and all 16 are at the
-- start of a segment, where the call then loads.
pub read_outer_walks :
    (addr size stride prl itr1 itr2 : ℕ) (m : Mem)
    → 16 ≤ size / stride
    → Inside addr size stride m
    → (j : ℕ) → j < 16
    → (read_outer m prl itr1 itr2 (starts addr stride) j ≡ (
        if ltb j (pointers prl)
        then chase m (itr1 * (itr2 * 100)) (addr + j * stride)
        else addr + j * stride))
      × Cell addr size stride (read_outer m prl itr1 itr2 (starts addr stride) j)
read_outer_walks addr size stride prl itr1 itr2 m many ok j lt = (at, cell)
  where
    at : read_outer m prl itr1 itr2 (starts addr stride) j ≡ (
        if ltb j (pointers prl)
        then chase m (itr1 * (itr2 * 100)) (addr + j * stride)
        else addr + j * stride)
    at = outer-Along m prl (starts addr stride) itr1 itr2 j

    begin : Cell addr size stride (addr + j * stride)
    begin = (j, omega arith, refl)

    cell : Cell addr size stride (read_outer m prl itr1 itr2 (starts addr stride) j)
    cell = subst (Cell addr size stride) (sym at) (elim (Bool-cases (ltb j (pointers prl))) [
      | inl t ↦ rw t (chase-Inside addr size stride _ (itr1 * (itr2 * 100)) m ok begin)
      | inr f ↦ rw f begin
    ])
