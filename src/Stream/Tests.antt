-- ===== src/Stream/Tests.antt =====
-- The stream theorems over the natural numbers in place of the floating-point numbers, for arrays
-- of two elements whose loops run backwards every other time.
use mbench.Prelude.{
  ℕ, zero, suc, ◌<◌, ◌≡◌, refl, none, true, false, List, [], ◌∷◌, arith, inl, inr, ◌%◌,
  if◌then◌else◌, ◌==◌, Occurs,
}
use mbench.Floats.Tests.{naturals}
use mbench.Stream.Kernels.{Arrays, main_arrays}
use mbench.Stream.Kernels.Local.{Schedule, row}
use mbench.Stream.Replay.{expected, replay_rounds, values, main_arrays-expected}
use mbench.Stream.Check.{epsilon, Benign, check_results, main_validates}

abbrev pub orders : ℕ → List ℕ
orders t = if t % 2 == 0 then 0 ∷ 1 ∷ [] else 1 ∷ 0 ∷ []

abbrev pub blank : Arrays naturals
blank = record { a = λ i. 7; b = λ i. 7; c = λ i. 7 }

forward : Schedule 2 (0 ∷ 1 ∷ [])
forward = record { once = ((omega arith, tt), (tt, tt)); all = every }
  where
    every : (i : ℕ) → i < 2 → Occurs i (0 ∷ 1 ∷ [])
    every zero lt = inl refl
    every (suc zero) lt = inr (inl refl)
    every (suc (suc i)) lt = absurd (omega arith)

backward : Schedule 2 (1 ∷ 0 ∷ [])
backward = record { once = ((omega arith, tt), (tt, tt)); all = every }
  where
    every : (i : ℕ) → i < 2 → Occurs i (1 ∷ 0 ∷ [])
    every zero lt = inr (inl refl)
    every (suc zero) lt = inl refl
    every (suc (suc i)) lt = absurd (omega arith)

pub fair : (t : ℕ) → Schedule 2 (orders t)
fair t = elim (t % 2 == 0) as (λ b. Schedule 2 (if b then 0 ∷ 1 ∷ [] else 1 ∷ 0 ∷ [])) [
  | true ↦ forward
  | false ↦ backward
]

-- aj, bj and cj after two rounds
expected_two : expected naturals 2 ≡ (450, 90, 120)
unfolding expected replay_rounds
expected_two = refl

main_arrays-expected_example :
    values naturals (row naturals (main_arrays naturals orders 2 blank) 1) ≡ expected naturals 2
main_arrays-expected_example = main_arrays-expected naturals 2 orders fair 2 1 blank (omega arith)

natural-Benign : (e n : ℕ) → Benign naturals (epsilon naturals 8) e n
unfolding epsilon
natural-Benign e n = record {
  no_difference = omega arith;
  not_negative = refl;
  zeros_add = refl;
  zero_average = omega arith;
  zero_ratio = omega arith;
  within = refl;
}

main_validates_example :
    check_results naturals 8 2 2 (main_arrays naturals orders 2 blank)
    ≡ record { a_errors = none; b_errors = none; c_errors = none; err = 0 }
main_validates_example =
    main_validates naturals 8 2 2 orders blank fair (natural-Benign _ _) (natural-Benign _ _)
      (natural-Benign _ _)
