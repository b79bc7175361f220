-- ===== src/Stream/Kernels/Local.antt =====
-- A parallel loop whose iterations touch one index each gives the same arrays in every order.
use mbench.Prelude.{
  ℕ, ◌<◌, ◌≡◌, refl, sym, ap, ◌∙◌, ◌≢◌, inl, inr, List, [], ◌∷◌, arith, Distinct, Avoids, Occurs,
}
use mathlib.Core.Path.{subst}
use mbench.Floats.{Floats}
use mbench.Stream.Kernels.{
  Arrays, for_each, fill_body, double_body, copy_body, scale_body, add_body, triad_body,
}

-- The iterations `0 .. n - 1`, each once, in some order.
pub record Schedule (n : ℕ) (js : List ℕ) : Type 0 where
  pub once : Distinct js
  pub all : (i : ℕ) → i < n → Occurs i js

Occurs-ne : (i j : ℕ) (js : List ℕ) → Occurs i js → Avoids j js → i ≢ j
Occurs-ne i j [] o d e = o
Occurs-ne i j (x ∷ js) (inl p) d e = d.0 (sym e ∙ p)
Occurs-ne i j (x ∷ js) (inr o) d e = Occurs-ne i j js o d.1 e

module _ (F : Floats) where
  open F use {R, of_ℕ, add, mul}

  -- The elements of the three arrays at one index.
  pub record Row : Type 0 where
    pub a : R
    pub b : R
    pub c : R

  abbrev pub row : Arrays F → ℕ → Row
  row s i = record { a = s.a i; b = s.b i; c = s.c i }

  -- Iteration `j` changes row `j` by `k`, and no other.
  abbrev pub IsLocal : (ℕ → Arrays F → Arrays F) → (Row → Row) → Type 0
  IsLocal body k =
      (j : ℕ) (s : Arrays F)
      → (row (body j s) j ≡ k (row s j)) × ((i : ℕ) → i ≢ j → row (body j s) i ≡ row s i)

  for_each_skips :
      (body : ℕ → Arrays F → Arrays F) (k : Row → Row) (js : List ℕ) (i : ℕ) (s : Arrays F)
      → IsLocal body k
      → Avoids i js
      → row (for_each F js body s) i ≡ row s i
  unfolding for_each
  for_each_skips body k [] i s l d = refl
  for_each_skips body k (j ∷ js) i s l d =
      for_each_skips body k js i (body j s) l d.1 ∙ (l j s).1 i d.0

  pub row-for_each :
      (body : ℕ → Arrays F → Arrays F) (k : Row → Row) (js : List ℕ) (i : ℕ) (s : Arrays F)
      → IsLocal body k
      → Distinct js
      → Occurs i js
      → row (for_each F js body s) i ≡ k (row s i)
  unfolding for_each
  row-for_each body k [] i s l d o = absurd o
  row-for_each body k (j ∷ js) i s l d (inl e) =
      for_each_skips body k js i (body j s) l (subst (λ x. Avoids x js) (sym e) d.0)
      ∙ subst (λ x. row (body j s) x ≡ k (row s x)) (sym e) (l j s).0
  row-for_each body k (j ∷ js) i s l d (inr o) =
      row-for_each body k js i (body j s) l d.1 o ∙ ap k ((l j s).1 i (Occurs-ne i j js o d.0))

  abbrev pub fill_row : Row → Row
  fill_row r = record { a = of_ℕ 1; b = of_ℕ 2; c = of_ℕ 0 }

  abbrev pub double_row : Row → Row
  double_row r = record r { a = mul (of_ℕ 2) r.a }

  abbrev pub copy_row : Row → Row
  copy_row r = record r { c = r.a }

  abbrev pub scale_row : R → Row → Row
  scale_row x r = record r { b = mul x r.c }

  abbrev pub add_row : Row → Row
  add_row r = record r { c = add r.a r.b }

  abbrev pub triad_row : R → Row → Row
  triad_row x r = record r { a = add r.b (mul x r.c) }

  pub fill-IsLocal : IsLocal (fill_body F) fill_row
  unfolding fill_body
  fill-IsLocal j s = (ground arith, λ i ne. ground arith)

  pub double-IsLocal : IsLocal (double_body F) double_row
  unfolding double_body
  double-IsLocal j s = (ground arith, λ i ne. ground arith)

  pub copy-IsLocal : IsLocal (copy_body F) copy_row
  unfolding copy_body
  copy-IsLocal j s = (ground arith, λ i ne. ground arith)

  pub scale-IsLocal : (x : R) → IsLocal (scale_body F x) (scale_row x)
  unfolding scale_body
  scale-IsLocal x j s = (ground arith, λ i ne. ground arith)

  pub add-IsLocal : IsLocal (add_body F) add_row
  unfolding add_body
  add-IsLocal j s = (ground arith, λ i ne. ground arith)

  pub triad-IsLocal : (x : R) → IsLocal (triad_body F x) (triad_row x)
  unfolding triad_body
  triad-IsLocal x j s = (ground arith, λ i ne. ground arith)
