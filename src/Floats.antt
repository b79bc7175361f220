-- ===== src/Floats.antt =====
-- The floating-point numbers of the C programs (`double`, `float`), as an interface: a type with
-- the operations that the programs call, and no law. A theorem that needs a law names it.
pub mod Tests
use mbench.Prelude.{ℕ, Bool}

pub record Floats : Type 1 where
  pub R : Type 0
  pub of_ℕ : ℕ → R  -- a literal, or the conversion of an integer
  pub lit : ℕ → ℕ → R  -- the decimal literal `k * 10 ^ -d`
  pub litf : ℕ → ℕ → R  -- the same with the suffix `f`
  pub add : R → R → R
  pub sub : R → R → R
  pub mul : R → R → R
  pub div : R → R → R
  pub neg : R → R
  pub ltf : R → R → Bool  -- `x < y`
  pub lef : R → R → Bool  -- `x <= y`
