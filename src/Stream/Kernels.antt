-- ===== src/Stream/Kernels.antt =====
-- The parallel loops of stream_dynamic.c. The iterations of an `omp parallel for` are run in the
-- order of a list.
pub mod Local
use mbench.Prelude.{ℕ, zero, suc, List, [], ◌∷◌, update}
use mbench.Floats.{Floats}

module _ (F : Floats) where
  open F use {R, of_ℕ, add, mul}

  -- The arrays `a`, `b` and `c`, of `STREAM_ARRAY_SIZE` elements.
  pub record Arrays : Type 0 where
    pub a : ℕ → R
    pub b : ℕ → R
    pub c : ℕ → R

  pub for_each : List ℕ → (ℕ → Arrays → Arrays) → Arrays → Arrays
  for_each [] body s = s
  for_each (j ∷ js) body s = for_each js body (body j s)

  -- `a[j] = 1.0; b[j] = 2.0; c[j] = 0.0`
  pub fill_body : ℕ → Arrays → Arrays
  fill_body j s = record {
    a = update s.a j (of_ℕ 1);
    b = update s.b j (of_ℕ 2);
    c = update s.c j (of_ℕ 0);
  }

  -- `a[j] = 2.0E0 * a[j]`
  pub double_body : ℕ → Arrays → Arrays
  double_body j s = record s { a = update s.a j (mul (of_ℕ 2) (s.a j)) }

  -- `c[j] = a[j]`
  pub copy_body : ℕ → Arrays → Arrays
  copy_body j s = record s { c = update s.c j (s.a j) }

  -- `b[j] = scalar*c[j]`
  pub scale_body : R → ℕ → Arrays → Arrays
  scale_body scalar j s = record s { b = update s.b j (mul scalar (s.c j)) }

  -- `c[j] = a[j]+b[j]`
  pub add_body : ℕ → Arrays → Arrays
  add_body j s = record s { c = update s.c j (add (s.a j) (s.b j)) }

  -- `a[j] = b[j]+scalar*c[j]`
  pub triad_body : R → ℕ → Arrays → Arrays
  triad_body scalar j s = record s { a = update s.a j (add (s.b j) (mul scalar (s.c j))) }

  -- One round of the main loop. `orders` gives the order of each parallel loop, numbered from `t`.
  unfoldable pub round : (ℕ → List ℕ) → ℕ → R → Arrays → Arrays
  round orders t scalar s = for_each (orders (suc (suc (suc t)))) (triad_body scalar) (
      for_each (orders (suc (suc t))) add_body
        (for_each (orders (suc t)) (scale_body scalar) (for_each (orders t) copy_body s)))

  unfoldable pub rounds : (ℕ → List ℕ) → ℕ → ℕ → R → Arrays → Arrays
  rounds orders t zero scalar s = s
  rounds orders t (suc k) scalar s =
      rounds orders (suc (suc (suc (suc t)))) k scalar (round orders t scalar s)

  -- The arrays when `main` has run its kernels `ntimes` times, on memory that held `s`.
  unfoldable pub main_arrays : (ℕ → List ℕ) → ℕ → Arrays → Arrays
  main_arrays orders ntimes s =
      rounds orders (suc (suc zero)) ntimes (of_ℕ 3)
        (for_each (orders (suc zero)) double_body (for_each (orders zero) fill_body s))
