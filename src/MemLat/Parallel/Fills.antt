-- ===== src/MemLat/Parallel/Fills.antt =====
-- Threads that fill at the same time, each along links that no fill overwrites.
use mbench.Prelude.{
  ℕ, All, ◌<◌, zero, suc, ◌+◌, ◌≡◌, refl, sym, ap, ◌∙◌, ◌≢◌, List, [], ◌∷◌, arith, ℕ_discrete, ◌==◌,
  if◌then◌else◌, Mem, store-ne, chase, update,
}
use mathlib.Core.Path.{subst}
use mbench.MemLat.Loops.{wr_one}
use mbench.MemLat.Parallel.{fill_steps}

-- How many of the steps are those of thread `i`.
abbrev pub turns : ℕ → List ℕ → ℕ
turns i [] = 0
turns i (j ∷ sched) = let rest = turns i sched in if j == i then suc rest else rest

chase-load : (m : Mem) (n a : ℕ) → chase m n (m a) ≡ chase m (suc n) a
chase-load m zero a = refl
chase-load m (suc n) a = ap m (chase-load m n a)

-- `P` holds of the addresses of links, as for one thread.
module _ (P : ℕ → Type 0) (m : Mem) (closed : (q : ℕ) → P q → P (m q))
    (apart : (q b : ℕ) → P q → P b → q + 8 ≢ b) where
  -- The links in the memory `w` are those of `m`.
  abbrev pub Links : Mem → Type 0
  Links w = (b : ℕ) → P b → w b ≡ m b

  step_loads : (w : Mem) (q : ℕ) → Links w → P q → (wr_one (w, q)).1 ≡ m q
  unfolding wr_one
  step_loads w q l pq = store-ne w (q + 8) 1 q (apart q q pq pq) ∙ l q pq

  step-Links : (w : Mem) (q : ℕ) → Links w → P q → Links (wr_one (w, q)).0
  unfolding wr_one
  step-Links w q l pq b pb = store-ne w (q + 8) 1 b (apart q b pq pb) ∙ l b pb

  moved :
      (n : ℕ) (qs : ℕ → ℕ) (i q : ℕ)
      → ((j : ℕ) → j < n → P (qs j))
      → P q
      → (j : ℕ) → j < n
      → P (update qs i q j)
  moved n qs i q all pq j lt = elim (ℕ_discrete i j) [
    | yes e ↦ let at : q ≡ update qs i q j = ground arith in subst P at pq
    | no ne ↦ let off : qs j ≡ update qs i q j = ground arith in subst P off (all j lt)
  ]

  turn :
      (qs : ℕ → ℕ) (i j n q : ℕ)
      → q ≡ m (qs i)
      → chase m n (update qs i q j) ≡ chase m (if i == j then suc n else n) (qs j)
  turn qs i j n q e = elim (ℕ_discrete i j) [
    | yes same ↦
        ap (chase m n) (at same) ∙ chase-load m n (qs j) ∙ ap (λ k. chase m k (qs j)) (counted same)
    | no ne ↦ ap (chase m n) (off ne) ∙ ap (λ k. chase m k (qs j)) (not_counted ne)
  ]
    where
      at : i ≡ j → update qs i q j ≡ m (qs j)
      at same = let q_at : q ≡ m (qs j) = e ∙ ap (λ k. m (qs k)) same in ground arith

      counted : i ≡ j → suc n ≡ (if i == j then suc n else n)
      counted same = ground arith

      off : i ≢ j → update qs i q j ≡ qs j
      off ne = ground arith

      not_counted : i ≢ j → n ≡ (if i == j then suc n else n)
      not_counted ne = ground arith

  pub fill_steps-Links :
      (n : ℕ) (sched : List ℕ) (w : Mem) (qs : ℕ → ℕ)
      → All (λ i. i < n) sched
      → Links w
      → ((i : ℕ) → i < n → P (qs i))
      → Links (fill_steps sched w qs).0
        × ((i : ℕ) → (fill_steps sched w qs).1 i ≡ chase m (turns i sched) (qs i))
  unfolding fill_steps
  fill_steps-Links n [] w qs below l on = (l, λ i. refl)
  fill_steps-Links n (j ∷ sched) w qs below l on =
      let here = on j below.0 in
      let loads = step_loads w (qs j) l here in
      let (links, ends) =
        fill_steps-Links n sched _ _ below.1 (step-Links w (qs j) l here)
          (moved n qs j _ on (subst P (sym loads) (closed (qs j) here))) in
      (links, λ i. ends i ∙ turn qs j i (turns i sched) _ loads)
