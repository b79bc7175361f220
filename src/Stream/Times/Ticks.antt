-- ===== src/Stream/Times/Ticks.antt =====
-- `checktick` gives a granularity from 0 to 1000000 microseconds.
use mbench.Prelude.{
  refl, map, length, ◌++◌, All, ℕ, ◌≤◌, ◌≡◌, true, false, some, List, [], ◌∷◌, arith, ltb,
  if◌then◌else◌, int_gt,
}
use mathlib.Core.Path.{subst}
use mbench.Floats.{Floats}
use mbench.Stream.Times.{wait, find_times, min_delta, checktick}

pick_le : (a b : ℕ) → (if ltb a b then a else b) ≤ a
pick_le a b = ground arith

module _ (F : Floats) where
  open F use {R, sub, lit, ltf}

  le_after :
      (truncate : R → ℕ) (least positive : ℕ) (ts : List R)
      → ((n : ℕ) → min_delta F truncate n ts ≤ n)
      → min_delta F truncate (if ltb least positive then least else positive) ts ≤ least
  le_after truncate least positive ts ih =
      omega (arith, ih (if ltb least positive then least else positive), pick_le least positive)

  min_delta_le :
      (truncate : R → ℕ) (least : ℕ) (ts : List R) → min_delta F truncate least ts ≤ least
  unfolding min_delta
  min_delta_le truncate least [] = omega arith
  min_delta_le truncate least (t ∷ []) = omega arith
  min_delta_le truncate least (t ∷ u ∷ ts) =
      let delta : ℕ = truncate (F.mul (F.of_ℕ 1000000) (sub u t)) in
      le_after truncate least (if int_gt delta 0 then delta else 0) (u ∷ ts)
        (λ n. min_delta_le truncate n (u ∷ ts))

  -- The readings of the clock for one of the times found: one to begin with, those that are less
  -- than a microsecond later, and the first that is not.
  pub record Tick : Type 0 where
    pub t1 : R
    pub waiting : List R
    pub t2 : R
    pub short : All (λ t. ltf (sub t t1) (lit 1 6) ≡ true) waiting
    pub long : ltf (sub t2 t1) (lit 1 6) ≡ false

  abbrev pub readings : List Tick → List R
  readings [] = []
  readings (k ∷ ks) = k.t1 ∷ (k.waiting ++ (k.t2 ∷ readings ks))

  wait_first :
      (t1 t2 : R) (waiting clock : List R)
      → All (λ t. ltf (sub t t1) (lit 1 6) ≡ true) waiting
      → ltf (sub t2 t1) (lit 1 6) ≡ false
      → wait F t1 (waiting ++ (t2 ∷ clock)) ≡ some (t2, clock)
  unfolding wait
  wait_first t1 t2 [] clock short long = rw long refl
  wait_first t1 t2 (t ∷ ts) clock short long = rw short.0 (wait_first t1 t2 ts clock short.1 long)

  find_times-readings :
      (ks : List Tick) → find_times F (length ks) (readings ks) ≡ some (map (λ k. k.t2) ks)
  unfolding find_times
  find_times-readings [] = refl
  find_times-readings (k ∷ ks) =
      rw
        (
          wait_first k.t1 k.t2 k.waiting (readings ks) k.short k.long,
          find_times,
          find_times-readings ks,
        )
        refl

  -- With a clock that goes on by a microsecond or more 20 times, however often it is read in
  -- between, `checktick` returns: it finds the 20 times at which the clock went on, and its result
  -- comes from them and is from 0 to 1000000, whatever the conversion to `int` gives.
  pub checktick-readings :
      (truncate : R → ℕ) (ks : List Tick)
      → length ks ≡ 20
      → (checktick F truncate (readings ks)
          ≡ some (min_delta F truncate 1000000 (map (λ k. k.t2) ks)))
        × (min_delta F truncate 1000000 (map (λ k. k.t2) ks) ≤ 1000000)
  unfolding checktick
  checktick-readings truncate ks twenty =
      let found : find_times F 20 (readings ks) ≡ some (map (λ k. k.t2) ks) =
        subst (λ n. find_times F n (readings ks) ≡ some (map (λ k. k.t2) ks)) twenty
          (find_times-readings ks) in
      (rw (found, checktick) refl, min_delta_le truncate 1000000 _)
