-- ===== src/Stream/Times/Tests.antt =====
-- Times and a clock in whole numbers, which the tests read as microseconds.
use mbench.Prelude.{
  ℕ, zero, suc, ◌+◌, ◌-◌, ◌*◌, ◌/◌, ◌≤◌, ◌≡◌, refl, ltb, leb, some, List, [], ◌∷◌, map, All, arith,
}
use mbench.Floats.{Floats}
use mbench.Stream.Times.{summary, checktick, find_times, wait, min_delta, add_times}
use mbench.Stream.Times.Extremes.{Ordered, OneOf, Between, summary_extremes}
use mbench.Stream.Times.Ticks.{Tick, readings, checktick-readings}

-- One second is 1000000, and `lit 1 6` is 1.
abbrev pub micro : Floats
micro = record {
  R = ℕ;
  of_ℕ = λ n. n;
  lit = λ k d. k;
  litf = λ k d. k;
  add = ◌+◌;
  sub = ◌-◌;
  mul = ◌*◌;
  div = ◌/◌;
  neg = λ x. x;
  ltf = ltb;
  lef = leb;
}

abbrev pub AnyNumber : ℕ → Type 0
AnyNumber x = Unit

pub numbers : Ordered micro AnyNumber
numbers = record {
  irreflexive = λ x _. ground arith;
  asymmetric = λ x y _ _ e. ground arith;
  negatively_transitive = λ x y z _ _ _ e f. ground arith;
}

abbrev times : List ℕ
times = 30 ∷ 10 ∷ 20 ∷ []

three : (summary micro 1000 640 3 times).avg ≡ 20
unfolding summary add_times
three = refl

summary_extremes_example :
    OneOf micro AnyNumber numbers (summary micro 1000 640 3 times).min_time 1000 times
    × OneOf micro AnyNumber numbers (summary micro 1000 640 3 times).max_time 0 times
    × All
        (Between micro AnyNumber numbers
          (summary micro 1000 640 3 times).min_time
          (summary micro 1000 640 3 times).max_time)
        times
summary_extremes_example =
    summary_extremes micro AnyNumber numbers 1000 640 3 times tt tt (tt, (tt, (tt, tt)))

-- A clock that goes on by 2 at every other reading.
tick : ℕ → Tick micro
tick n = record {
  t1 = n;
  waiting = n ∷ [];
  t2 = n + 2;
  short = (ground arith, tt);
  long = ground arith;
}

abbrev ticks : ℕ → ℕ → List (Tick micro)
ticks n zero = []
ticks n (suc left) = tick n ∷ ticks (n + 2) left

two : checktick micro (λ x. x / 1000000) (readings micro (ticks 5 20)) ≡ some 2
unfolding checktick find_times wait min_delta tick
two = refl

checktick-readings_example :
    (checktick micro (λ x. x / 1000000) (readings micro (ticks 5 20))
      ≡ some (min_delta micro (λ x. x / 1000000) 1000000 (map (λ k. k.t2) (ticks 5 20))))
    × (min_delta micro (λ x. x / 1000000) 1000000 (map (λ k. k.t2) (ticks 5 20)) ≤ 1000000)
checktick-readings_example = checktick-readings micro (λ x. x / 1000000) (ticks 5 20) refl
