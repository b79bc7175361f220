-- ===== src/Stream/Check.antt =====
-- `checkSTREAMresults` of stream_dynamic.c: average errors against the replayed values.
use mbench.Prelude.{
  ℕ, zero, suc, ◌+◌, ◌^◌, ◌<◌, ◌≡◌, refl, ap, ◌∙◌, true, false, Option, none, some, List, arith,
  ◌==◌, if◌then◌else◌,
}
use mathlib.Core.Path.{ap₂}
use mbench.Floats.{Floats}
use mbench.Stream.Kernels.{Arrays, main_arrays}
use mbench.Stream.Kernels.Local.{Schedule, row}
use mbench.Stream.Replay.{expected, values, main_arrays-expected}

module _ (F : Floats) where
  open F use {R, of_ℕ, add, sub, div, neg, ltf, lef}

  -- The macro `abs`.
  abbrev pub abs : R → R
  abs x = if lef (of_ℕ 0) x then x else neg x

  -- `for (j = 0; j < n; j++) sum += abs(f[j] - e)`
  pub sum_err : (ℕ → R) → R → ℕ → R
  sum_err f e zero = of_ℕ 0
  sum_err f e (suc j) = add (sum_err f e j) (abs (sub (f j) e))

  pub avg_err : (ℕ → R) → R → ℕ → R
  avg_err f e n = div (sum_err f e n) (of_ℕ n)

  -- 1.e-6 for a `float`, 1.e-13 for a `double`, and 1.e-6 with a warning for another size.
  unfoldable pub epsilon : ℕ → R
  epsilon size =
      if size == 4
      then div (of_ℕ 1) (of_ℕ (10 ^ 6))
      else if size == 8
      then div (of_ℕ 1) (of_ℕ (10 ^ 13))
      else div (of_ℕ 1) (of_ℕ (10 ^ 6))

  -- How many elements are off by themselves: `ierr`.
  pub count_errors : R → (ℕ → R) → R → ℕ → ℕ
  count_errors eps f e zero = 0
  count_errors eps f e (suc j) =
      count_errors eps f e j + (if ltf eps (abs (sub (div (f j) e) (of_ℕ 1))) then 1 else 0)

  -- One array: `none`, or the count that is printed with the failure.
  pub check_array : R → (ℕ → R) → R → ℕ → Option ℕ
  check_array eps f e n =
      if ltf eps (abs (div (avg_err f e n) e)) then some (count_errors eps f e n) else none

  abbrev pub failed : Option ℕ → ℕ
  failed none = 0
  failed (some ierr) = 1

  pub record Verdict : Type 0 where
    pub a_errors : Option ℕ
    pub b_errors : Option ℕ
    pub c_errors : Option ℕ
    pub err : ℕ

  pub check_results : ℕ → ℕ → ℕ → Arrays F → Verdict
  check_results size ntimes n s =
      let (aj, bj, cj) = expected F ntimes in
      let a = check_array (epsilon size) s.a aj n in
      let b = check_array (epsilon size) s.b bj n in
      let c = check_array (epsilon size) s.c cj n in
      record { a_errors = a; b_errors = b; c_errors = c; err = failed a + failed b + failed c }

  -- What the check needs of the arithmetic at an expected value `e`, over `n` elements: that it is
  -- finite and not zero, that zeros add and divide to zero, and that zero is within `eps`.
  pub record Benign (eps e : R) (n : ℕ) : Type 0 where
    pub no_difference : sub e e ≡ of_ℕ 0
    pub not_negative : lef (of_ℕ 0) (of_ℕ 0) ≡ true
    pub zeros_add : add (of_ℕ 0) (of_ℕ 0) ≡ of_ℕ 0
    pub zero_average : div (of_ℕ 0) (of_ℕ n) ≡ of_ℕ 0
    pub zero_ratio : div (of_ℕ 0) e ≡ of_ℕ 0
    pub within : ltf eps (of_ℕ 0) ≡ false

  module _ (eps e : R) (n : ℕ) (ok : Benign eps e n) (f : ℕ → R) where
    abs-zero : abs (of_ℕ 0) ≡ of_ℕ 0
    abs-zero = rw ok.not_negative

    sum_err-zero : (k : ℕ) → ((i : ℕ) → i < k → f i ≡ e) → sum_err f e k ≡ of_ℕ 0
    unfolding sum_err
    sum_err-zero zero h = refl
    sum_err-zero (suc k) h =
        ap₂ add (sum_err-zero k (λ i lt. h i (omega arith)))
          (ap (λ x. abs (sub x e)) (h k (omega arith)) ∙ ap abs ok.no_difference ∙ abs-zero)
        ∙ ok.zeros_add

    check_array-none : ((i : ℕ) → i < n → f i ≡ e) → check_array eps f e n ≡ none
    unfolding check_array avg_err
    check_array-none h =
        let z : div (div (sum_err f e n) (of_ℕ n)) e ≡ of_ℕ 0 =
          ap (λ x. div (div x (of_ℕ n)) e) (sum_err-zero n h)
          ∙ ap (λ x. div x e) ok.zero_average
          ∙ ok.zero_ratio in
        rw (z, abs-zero, ok.within)

  -- The arrays that `main` leaves pass `checkSTREAMresults`, with no array reported, in whatever
  -- order the parallel loops run, if the three expected values are finite and not zero.
  pub main_validates :
      (size n ntimes : ℕ) (orders : ℕ → List ℕ) (s : Arrays F)
      → ((t : ℕ) → Schedule n (orders t))
      → Benign (epsilon size) (expected F ntimes).0 n
      → Benign (epsilon size) (expected F ntimes).1 n
      → Benign (epsilon size) (expected F ntimes).2 n
      → check_results size ntimes n (main_arrays F orders ntimes s)
        ≡ record { a_errors = none; b_errors = none; c_errors = none; err = 0 }
  unfolding check_results
  main_validates size n ntimes orders s fair pa pb pc = λ i. record {
    a_errors = a i;
    b_errors = b i;
    c_errors = c i;
    err = failed (a i) + failed (b i) + failed (c i);
  }
    where
      out : (i : ℕ) → i < n → values F (row F (main_arrays F orders ntimes s) i) ≡ expected F ntimes
      out i lt = main_arrays-expected F n orders fair ntimes i s lt

      a :
          check_array (epsilon size) (main_arrays F orders ntimes s).a (expected F ntimes).0 n
          ≡ none
      a =
          check_array-none (epsilon size) (expected F ntimes).0 n pa _
            (λ i lt. ap (λ r. r.0) (out i lt))

      b :
          check_array (epsilon size) (main_arrays F orders ntimes s).b (expected F ntimes).1 n
          ≡ none
      b =
          check_array-none (epsilon size) (expected F ntimes).1 n pb _
            (λ i lt. ap (λ r. r.1) (out i lt))

      c :
          check_array (epsilon size) (main_arrays F orders ntimes s).c (expected F ntimes).2 n
          ≡ none
      c =
          check_array-none (epsilon size) (expected F ntimes).2 n pc _
            (λ i lt. ap (λ r. r.2) (out i lt))
