-- ===== src/Stream/Replay.antt =====
-- `checkSTREAMresults` replays the kernels on three numbers, and the arrays agree with it exactly.
use mbench.Prelude.{ℕ, zero, suc, ◌<◌, ◌≡◌, refl, ap, ◌∙◌, List}
use mbench.Floats.{Floats}
use mbench.Stream.Kernels.{Arrays, for_each, round, rounds, main_arrays}
use mbench.Stream.Kernels.Local.{
  Schedule, Row, row, IsLocal, row-for_each, fill_row, double_row, copy_row, scale_row, add_row,
  triad_row, fill-IsLocal, double-IsLocal, copy-IsLocal, scale-IsLocal, add-IsLocal, triad-IsLocal,
}

module _ (F : Floats) where
  open F use {R, of_ℕ, add, mul}

  -- `aj`, `bj` and `cj`, after `k` rounds of the timing loop.
  unfoldable pub replay_rounds : ℕ → R → R × R × R → R × R × R
  replay_rounds zero scalar e = e
  replay_rounds (suc k) scalar (aj, bj, cj) =
      let cj1 = aj in
      let bj1 = mul scalar cj1 in
      let cj2 = add aj bj1 in
      let aj1 = add bj1 (mul scalar cj2) in replay_rounds k scalar (aj1, bj1, cj2)

  -- The expected values of `checkSTREAMresults`.
  unfoldable pub expected : ℕ → R × R × R
  expected ntimes = replay_rounds ntimes (of_ℕ 3) (mul (of_ℕ 2) (of_ℕ 1), of_ℕ 2, of_ℕ 0)

  abbrev pub values : Row F → R × R × R
  values r = (r.a, r.b, r.c)

  module _ (n : ℕ) (orders : ℕ → List ℕ) (fair : (t : ℕ) → Schedule n (orders t)) where
    row-loop :
        (body : ℕ → Arrays F → Arrays F) (k : Row F → Row F) (t i : ℕ) (s : Arrays F)
        → IsLocal F body k
        → i < n
        → row F (for_each F (orders t) body s) i ≡ k (row F s i)
    row-loop body k t i s l lt =
        row-for_each F body k (orders t) i s l (fair t).once ((fair t).all i lt)

    row-round :
        (t i : ℕ) (x : R) (s : Arrays F)
        → i < n
        → row F (round F orders t x s) i
          ≡ triad_row F x (add_row F (scale_row F x (copy_row F (row F s i))))
    unfolding round
    row-round t i x s lt =
        row-loop _ (triad_row F x) _ i _ (triad-IsLocal F x) lt
        ∙ ap (triad_row F x) (
            row-loop _ (add_row F) _ i _ (add-IsLocal F) lt
            ∙ ap (add_row F) (
                row-loop _ (scale_row F x) _ i _ (scale-IsLocal F x) lt
                ∙ ap (scale_row F x) (row-loop _ (copy_row F) _ i _ (copy-IsLocal F) lt)))

    row-rounds :
        (k t i : ℕ) (x : R) (s : Arrays F)
        → i < n
        → values (row F (rounds F orders t k x s) i) ≡ replay_rounds k x (values (row F s i))
    unfolding rounds replay_rounds
    row-rounds zero t i x s lt = refl
    row-rounds (suc k) t i x s lt =
        row-rounds k (suc (suc (suc (suc t)))) i x (round F orders t x s) lt
        ∙ ap (λ r. replay_rounds k x (values r)) (row-round t i x s lt)

    -- In whatever order the iterations of each parallel loop run, each once, the elements of the
    -- three arrays that `main` leaves at an index are exactly the values that
    -- `checkSTREAMresults` expects, whatever the arithmetic of the floating-point type is.
    pub main_arrays-expected :
        (ntimes i : ℕ) (s : Arrays F)
        → i < n
        → values (row F (main_arrays F orders ntimes s) i) ≡ expected ntimes
    unfolding main_arrays expected
    main_arrays-expected ntimes i s lt =
        row-rounds ntimes _ i _ _ lt
        ∙ ap (λ r. replay_rounds ntimes (of_ℕ 3) (values r))
            (row-loop _ (double_row F) _ i _ (double-IsLocal F) lt
              ∙ ap (double_row F) (row-loop _ (fill_row F) _ i _ (fill-IsLocal F) lt))
