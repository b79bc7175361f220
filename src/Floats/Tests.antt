-- ===== src/Floats/Tests.antt =====
-- Instances of the interface for the tests: whole numbers, and hundredths.
use mbench.Prelude.{ℕ, ◌+◌, ◌-◌, ◌*◌, ◌/◌, ◌^◌, ltb, leb}
use mbench.Floats.{Floats}

abbrev pub naturals : Floats
naturals = record {
  R = ℕ;
  of_ℕ = λ n. n;
  lit = λ k d. k / 10 ^ d;
  litf = λ k d. k / 10 ^ d;
  add = ◌+◌;
  sub = ◌-◌;
  mul = ◌*◌;
  div = ◌/◌;
  neg = λ n. n;
  ltf = ltb;
  lef = leb;
}

-- The number `n` stands for `n / 100`; the numbers below 0 are all 0.
abbrev pub hundredths : Floats
hundredths = record {
  R = ℕ;
  of_ℕ = λ n. n * 100;
  lit = λ k d. k * 100 / 10 ^ d;
  litf = λ k d. k * 100 / 10 ^ d;
  add = ◌+◌;
  sub = ◌-◌;
  mul = λ x y. x * y / 100;
  div = λ x y. x * 100 / y;
  neg = λ x. 0;
  ltf = ltb;
  lef = leb;
}
