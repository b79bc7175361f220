-- ===== src/MemLat/Phases/Tests.antt =====
-- Two threads with 1 KB each at 0x1000, in segments of 512 bytes, and one round of the loops.
use mbench.Prelude.{
  ℕ, zero, suc, ◌+◌, ◌*◌, ◌<◌, ◌≡◌, refl, inl, inr, Bool, false, Option, some, none, List, [], ◌∷◌,
  arith, Occurs, Mem, chase,
}
use mbench.MemLat.Setup.{Returned, attempt, fill, first_round, setup_rnd, close}
use mbench.MemLat.Parallel.{memset_slices, parallel_memset}
use mbench.MemLat.Phases.{
  Chance, Report, main, simple_test, parallel_test, modify_read, setup_threads, unset, first_memset,
  ptrs,
}
use mbench.MemLat.Phases.Rings.{HasRing}
use mbench.MemLat.Phases.Whole.{Team, main_rings}
use mbench.MemLat.Phases.Fill.{parallel_test-HasRing}

abbrev past : ℕ → ℕ → Bool
past n_segs n_done = false

abbrev dirty : Mem
dirty a = suc a

abbrev clear : Mem
clear a = 0

abbrev whole : Chance
whole = record { urandom = λ i. some (1 ∷ 2 ∷ 3 ∷ 3 ∷ []); setups = []; fills = 0 ∷ 1 ∷ 0 ∷ [] }

abbrev shares : Chance
shares = record {
  urandom = λ i. some (0 ∷ 1 ∷ 0 ∷ 1 ∷ []);
  setups = 1 ∷ 0 ∷ [];
  fills = 0 ∷ 1 ∷ 1 ∷ 0 ∷ [];
}

team : Team 2 (1 ∷ 0 ∷ [])
team = record { members = (omega arith, (omega arith, tt)); complete = every }
  where
    every : (i : ℕ) → i < 2 → Occurs i (1 ∷ 0 ∷ [])
    every zero lt = inr (inl refl)
    every (suc zero) lt = inl refl
    every (suc (suc i)) lt = absurd (omega arith)

abbrev got {ℓ} : {A : Type ℓ} → A → Option A → A
got a none = a
got a (some b) = b

abbrev nothing : Report
nothing = record {
  simple = unset past 0 0 0 0 0 dirty 0;
  threads = unset past 0 0 0 0 0 dirty;
  modify = unset past 0 0 0 0 0 dirty 0;
  mem = dirty;
}

abbrev both : List ℕ
both = 1 ∷ 0 ∷ []

abbrev report : Report
report = got nothing (main past 0x1000 1 2 512 1 (both, both, both) (whole, shares, whole) dirty)

reported : main past 0x1000 1 2 512 1 (both, both, both) (whole, shares, whole) dirty ≡ some report
unfolding main simple_test parallel_test modify_read setup_threads setup_rnd first_round fill
    attempt memset_slices parallel_memset close first_memset ptrs
reported = refl

main_rings_example :
    HasRing 0x1000 (1 * 1024 * 2) 512 report.simple
    × ((i : ℕ) → i < 2 → HasRing (0x1000 + i * (1 * 1024)) (1 * 1024) 512 (report.threads i))
    × HasRing 0x1000 (1 * 1024 * 2) 512 report.modify
main_rings_example =
    main_rings past 0x1000 1 2 512 1 (omega arith) (omega arith) (omega arith) (omega arith)
      (omega arith) (omega arith) both both both whole shares whole dirty report team team team team
      ((omega arith, tt), (tt, tt)) reported

abbrev made : (ℕ → Returned) × Mem
made = got (unset past 0 0 0 0 0 dirty, dirty) (parallel_test past 0x1000 1 2 512 1 shares clear)

made_it : parallel_test past 0x1000 1 2 512 1 shares clear ≡ some made
unfolding parallel_test setup_threads setup_rnd first_round fill attempt close ptrs
made_it = refl

parallel_test-HasRing_example :
    HasRing (0x1000 + 1 * (1 * 1024)) (1 * 1024) 512 (made.0 1)
    × ((k : ℕ)
        → chase made.1 k (0x1000 + 1 * (1 * 1024))
          ≡ chase (made.0 1).mem k (0x1000 + 1 * (1 * 1024)))
parallel_test-HasRing_example =
    parallel_test-HasRing past 0x1000 1 2 512 1 (omega arith) (omega arith) (omega arith)
      (omega arith) (omega arith) (omega arith) shares clear made.1 made.0 team
      ((omega arith, tt), (tt, tt)) (omega arith, (omega arith, (omega arith, (omega arith, tt))))
      (λ i lt n ln. refl) made_it 1 (omega arith)
