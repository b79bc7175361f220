-- ===== src/Stream/Times.antt =====
-- The times of stream_dynamic.c: the summary of `main` and the clock's granularity, `checktick`.
pub mod Extremes
pub mod Ticks
pub mod Tests
use mbench.Prelude.{ℕ, zero, suc, Option, none, some, List, [], ◌∷◌, ltb, if◌then◌else◌, int_gt}
use mbench.Floats.{Floats}

module _ (F : Floats) where
  open F use {R, of_ℕ, lit, add, sub, mul, div, ltf}

  -- The macros `MIN` and `MAX`.
  abbrev pub min : R → R → R
  min x y = if ltf x y then x else y

  abbrev pub max : R → R → R
  max x y = if ltf y x then x else y

  -- `avgtime[j]`, `mintime[j]` and `maxtime[j]`.
  pub record Summary : Type 0 where
    pub avgtime : R
    pub mintime : R
    pub maxtime : R

  -- Their initial values, with `FLT_MAX`.
  abbrev pub initial : R → Summary
  initial flt_max = record { avgtime = of_ℕ 0; mintime = flt_max; maxtime = of_ℕ 0 }

  -- One turn of the loop, for one of the four kernels.
  abbrev pub add_time : Summary → R → Summary
  add_time t x = record {
    avgtime = add t.avgtime x;
    mintime = min t.mintime x;
    maxtime = max t.maxtime x;
  }

  -- `times[j]` for `k` from 0 on; all iterations are used.
  unfoldable pub add_times : Summary → List R → Summary
  add_times t [] = t
  add_times t (x ∷ times) = add_times (add_time t x) times

  -- What is printed: the best rate and the three times.
  pub record Line : Type 0 where
    pub best_rate : R
    pub avg : R
    pub min_time : R
    pub max_time : R

  unfoldable pub summary : R → ℕ → ℕ → List R → Line
  summary flt_max bytes ntimes times =
      let t = add_times (initial flt_max) times in
      record {
        best_rate = div (mul (lit 1 6) (of_ℕ bytes)) t.mintime;
        avg = div t.avgtime (of_ℕ ntimes);
        min_time = t.mintime;
        max_time = t.maxtime;
      }

  -- `while (((t2 = mysecond()) - t1) < 1.0E-6)`: the readings of the clock from here on, and those
  -- after the one that ends the loop.
  unfoldable pub wait : R → List R → Option (R × List R)
  wait t1 [] = none
  wait t1 (t2 ∷ clock) =
      let later = wait t1 clock in if ltf (sub t2 t1) (lit 1 6) then later else some (t2, clock)

  -- `timesfound`; `none` where the readings end before the loop does.
  unfoldable pub find_times : ℕ → List R → Option (List R)
  find_times zero clock = some []
  find_times (suc left) [] = none
  find_times (suc left) (t1 ∷ clock) = elim (wait t1 clock) [
    | none ↦ none
    | some (t2, rest) ↦ elim (find_times left rest) [ none ↦ none | some ts ↦ some (t2 ∷ ts) ]
  ]

  -- The loop over the differences. `truncate` is the conversion to `int`, as a 32-bit pattern;
  -- `minDelta` is never negative, so that its comparison is one of patterns.
  unfoldable pub min_delta : (R → ℕ) → ℕ → List R → ℕ
  min_delta truncate least [] = least
  min_delta truncate least (t ∷ []) = least
  min_delta truncate least (t ∷ u ∷ ts) =
      let delta = truncate (mul (of_ℕ 1000000) (sub u t)) in
      let positive = if int_gt delta 0 then delta else 0 in
      min_delta truncate (if ltb least positive then least else positive) (u ∷ ts)

  -- `M` is 20.
  unfoldable pub checktick : (R → ℕ) → List R → Option ℕ
  checktick truncate clock = elim (find_times 20 clock) [
    | none ↦ none
    | some ts ↦ some (min_delta truncate 1000000 ts)
  ]
