-- ===== src/Stream/Times/Extremes.antt =====
-- `mintime` is the least and `maxtime` the greatest of the times.
use mbench.Prelude.{ℕ, ◌≡◌, refl, ◌⊎◌, inl, inr, true, false, List, [], ◌∷◌, All, Bool-cases}
use mathlib.Core.Path.{subst}
use mbench.Floats.{Floats}
use mbench.Stream.Times.{min, max, Summary, initial, add_time, add_times, summary}

-- What the comparison does on numbers, which NaN is not one of.
pub record Ordered (F : Floats) (Num : F.R → Type 0) : Type 0 where
  pub irreflexive : (x : F.R) → Num x → F.ltf x x ≡ false
  pub asymmetric : (x y : F.R) → Num x → Num y → F.ltf x y ≡ true → F.ltf y x ≡ false
  pub negatively_transitive :
      (x y z : F.R)
      → Num x
      → Num y
      → Num z
      → F.ltf x y ≡ false
      → F.ltf y z ≡ false
      → F.ltf x z ≡ false

module _ (F : Floats) (Num : F.R → Type 0) (ord : Ordered F Num) where
  open F use {R, ltf}

  -- `x` is one of the list or the value to begin with.
  abbrev pub OneOf : R → R → List R → Type 0
  OneOf x start [] = x ≡ start
  OneOf x start (t ∷ ts) = (x ≡ t) ⊎ OneOf x start ts

  -- No element is below `low` or above `high`.
  abbrev pub Between : R → R → R → Type 0
  Between low high t = (ltf t low ≡ false) × (ltf high t ≡ false)

  min-Num : (x y : R) → Num x → Num y → Num (min F x y)
  min-Num x y nx ny = elim (Bool-cases (ltf x y)) [ inl e ↦ rw e nx | inr e ↦ rw e ny ]

  max-Num : (x y : R) → Num x → Num y → Num (max F x y)
  max-Num x y nx ny = elim (Bool-cases (ltf y x)) [ inl e ↦ rw e nx | inr e ↦ rw e ny ]

  min_le : (x y : R) → Num x → Num y → (ltf x (min F x y) ≡ false) × (ltf y (min F x y) ≡ false)
  min_le x y nx ny = elim (Bool-cases (ltf x y)) [
    | inl e ↦ rw e (ord.irreflexive x nx, ord.asymmetric x y nx ny e)
    | inr e ↦ rw e (e, ord.irreflexive y ny)
  ]

  max_ge : (x y : R) → Num x → Num y → (ltf (max F x y) x ≡ false) × (ltf (max F x y) y ≡ false)
  max_ge x y nx ny = elim (Bool-cases (ltf y x)) [
    | inl e ↦ rw e (ord.irreflexive x nx, ord.asymmetric y x ny nx e)
    | inr e ↦ rw e (e, ord.irreflexive y ny)
  ]

  -- The loop only lowers the one and raises the other, and it has all times between them.
  record Result (t : Summary F) (ts : List R) (u : Summary F) : Type 0 where
    numbers : Num u.mintime × Num u.maxtime
    lowered : ltf t.mintime u.mintime ≡ false
    raised : ltf u.maxtime t.maxtime ≡ false
    all : All (Between u.mintime u.maxtime) ts

  add_times-Result :
      (t : Summary F) (ts : List R)
      → Num t.mintime
      → Num t.maxtime
      → All Num ts
      → Result t ts (add_times F t ts)
  unfolding add_times
  add_times-Result t [] lo hi ns = record {
    numbers = (lo, hi);
    lowered = ord.irreflexive _ lo;
    raised = ord.irreflexive _ hi;
    all = tt;
  }
  add_times-Result t (x ∷ ts) lo hi ns =
      let mn = min-Num t.mintime x lo ns.0 in
      let mx = max-Num t.maxtime x hi ns.0 in
      let r = add_times-Result (add_time F t x) ts mn mx ns.1 in
      record {
        numbers = r.numbers;
        lowered =
            ord.negatively_transitive _ _ _ lo mn r.numbers.0 (min_le t.mintime x lo ns.0).0
              r.lowered;
        raised =
            ord.negatively_transitive _ _ _ r.numbers.1 mx hi r.raised
              (max_ge t.maxtime x hi ns.0).0;
        all = (
          (
            ord.negatively_transitive _ _ _ ns.0 mn r.numbers.0 (min_le t.mintime x lo ns.0).1
                r.lowered,
            ord.negatively_transitive _ _ _ r.numbers.1 mx ns.0 r.raised
                (max_ge t.maxtime x hi ns.0).1,
          ),
          r.all,
        );
      }

  OneOf-start : (y x a : R) (ts : List R) → OneOf y x ts → (y ≡ x) ⊎ OneOf y a ts
  OneOf-start y x a [] o = inl o
  OneOf-start y x a (t ∷ ts) (inl e) = inr (inl e)
  OneOf-start y x a (t ∷ ts) (inr o) = elim (OneOf-start y x a ts o) [
    | inl e ↦ inl e
    | inr o' ↦ inr (inr o')
  ]

  OneOf-min : (y a x : R) (ts : List R) → OneOf y (min F a x) ts → OneOf y a (x ∷ ts)
  OneOf-min y a x ts o = elim (Bool-cases (ltf a x)) [
    | inl e ↦ inr (subst (λ s. OneOf y s ts) (pick_true e) o)
    | inr e ↦ OneOf-start y x a ts (subst (λ s. OneOf y s ts) (pick_false e) o)
  ]
    where
      pick_true : ltf a x ≡ true → min F a x ≡ a
      pick_true e = rw e refl

      pick_false : ltf a x ≡ false → min F a x ≡ x
      pick_false e = rw e refl

  OneOf-max : (y a x : R) (ts : List R) → OneOf y (max F a x) ts → OneOf y a (x ∷ ts)
  OneOf-max y a x ts o = elim (Bool-cases (ltf x a)) [
    | inl e ↦ inr (subst (λ s. OneOf y s ts) (pick_true e) o)
    | inr e ↦ OneOf-start y x a ts (subst (λ s. OneOf y s ts) (pick_false e) o)
  ]
    where
      pick_true : ltf x a ≡ true → max F a x ≡ a
      pick_true e = rw e refl

      pick_false : ltf x a ≡ false → max F a x ≡ x
      pick_false e = rw e refl

  add_times-OneOf :
      (t : Summary F) (ts : List R)
      → OneOf (add_times F t ts).mintime t.mintime ts
        × OneOf (add_times F t ts).maxtime t.maxtime ts
  unfolding add_times
  add_times-OneOf t [] = (refl, refl)
  add_times-OneOf t (x ∷ ts) =
      let (lo, hi) = add_times-OneOf (add_time F t x) ts in
      (OneOf-min _ t.mintime x ts lo, OneOf-max _ t.maxtime x ts hi)

  -- For times that are numbers the summary's minimum is one of them or `FLT_MAX`, its maximum one
  -- of them or 0, and no time is below the one or above the other.
  pub summary_extremes :
      (flt_max : R) (bytes ntimes : ℕ) (times : List R)
      → Num flt_max
      → Num (F.of_ℕ 0)
      → All Num times
      → OneOf (summary F flt_max bytes ntimes times).min_time flt_max times
        × OneOf (summary F flt_max bytes ntimes times).max_time (F.of_ℕ 0) times
        × All
            (Between
              (summary F flt_max bytes ntimes times).min_time
              (summary F flt_max bytes ntimes times).max_time)
            times
  unfolding summary
  summary_extremes flt_max bytes ntimes times top zero ns =
      let (lo, hi) = add_times-OneOf (initial F flt_max) times in
      (lo, hi, (add_times-Result (initial F flt_max) times top zero ns).all)
