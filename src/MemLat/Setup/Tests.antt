-- ===== src/MemLat/Setup/Tests.antt =====
-- Four segments of 16 bytes at 0x1000, linked by the numbers 1, 2, 3 and 3.
use mbench.Prelude.{
  ℕ, zero, suc, ◌≡◌, refl, Bool, false, some, List, [], ◌∷◌, arith, All, Mem, store, inl, inr,
}
use mbench.MemLat.Setup.{
  Returned, returned, exit, sigfpe, attempt, fill, close, first_round, setup_rnd, self_pick,
  self_picks, start,
}
use mbench.MemLat.Setup.Closed.{Ring, setup_rnd-Ring}
use mbench.MemLat.Setup.Progress.{Covers, join, setup_rnd_ends}

abbrev pub never : ℕ → Bool
never n_done = false

abbrev pub clear : Mem
clear a = 0

abbrev pub picks : List ℕ
picks = 1 ∷ 2 ∷ 3 ∷ 3 ∷ []

abbrev pub linked : Returned
linked = record {
  mem =
      store
        (store (store (store (store clear 0x1000 0x1010) 0x1010 0x1020) 0x1020 0x1030) 0x1030
          0x1030)
        0x1030 0x1000;
  debug_ret = (4, 0, 0x1030, 0x1000);
}

setup_rnd_four : setup_rnd never 0x1000 64 16 clear (some picks) ≡ returned linked
unfolding setup_rnd first_round fill attempt close
setup_rnd_four = refl

one_self_pick : self_picks never 0x1000 64 16 (start never 0x1000 64 16 clear) picks ≡ 1
unfolding self_picks self_pick attempt
one_self_pick = refl

-- A conflict is counted, and the end of the numbers is a read that fails.
setup_rnd_short : setup_rnd never 0x1000 64 16 clear (some (1 ∷ 0 ∷ 2 ∷ [])) ≡ exit
unfolding setup_rnd first_round fill attempt
setup_rnd_short = refl

setup_rnd_no_segment : setup_rnd never 0x1000 8 16 clear (some picks) ≡ sigfpe
unfolding setup_rnd first_round
setup_rnd_no_segment = refl

setup_rnd-Ring_example :
    (p : ℕ) × Ring 0x1000 64 16
      (self_picks never 0x1000 64 16 (start never 0x1000 64 16 clear) picks)
      linked
      p
setup_rnd-Ring_example =
    setup_rnd-Ring never 0x1000 64 16 (omega arith) (omega arith) (omega arith) (omega arith) clear
      picks linked (λ i lt. refl) setup_rnd_four

both : Covers 2 (0 ∷ 1 ∷ [])
both zero lt = inl refl
both (suc zero) lt = inr (inl refl)
both (suc (suc i)) lt = absurd (omega arith)

pub linked-Ring :
    (p : ℕ) × Ring 0x1000 64 16
      (self_picks never 0x1000 64 16 (start never 0x1000 64 16 clear) picks)
      linked
      p
linked-Ring =
    setup_rnd-Ring never 0x1000 64 16 (omega arith) (omega arith) (omega arith) (omega arith) clear
      picks linked (λ i lt. refl) setup_rnd_four

-- Two segments, and two blocks of numbers that name both.
blocks_cover : All (Covers 2) ((0 ∷ 1 ∷ []) ∷ (0 ∷ 1 ∷ []) ∷ [])
blocks_cover = (both, (both, tt))

setup_rnd_ends_example :
    (r : Returned) × (setup_rnd never 0x1000 32 16 clear
        (some (join ((0 ∷ 1 ∷ []) ∷ (0 ∷ 1 ∷ []) ∷ [])))
      ≡ returned r)
setup_rnd_ends_example =
    setup_rnd_ends never 0x1000 32 16 (omega arith) (omega arith) (omega arith) (omega arith) clear
      ((0 ∷ 1 ∷ []) ∷ (0 ∷ 1 ∷ []) ∷ []) (λ i lt. refl) blocks_cover (omega arith)
