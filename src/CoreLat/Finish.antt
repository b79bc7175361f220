-- ===== src/CoreLat/Finish.antt =====
-- The ring of threads in no_lock.c cannot get stuck, and all its steps but the spinning are used
-- up.
use mbench.Prelude.{
  ℕ, zero, suc, ◌+◌, ◌-◌, ◌*◌, ◌≤◌, ◌<◌, ◌≡◌, refl, sym, ◌⊎◌, inl, inr, arith, update, dec_lt,
  total, total-change,
}
use mathlib.Core.Path.{subst}
use mbench.CoreLat.{
  Pc, waiting, passing, State, next, init, Step, spin, see, pass, Reach, start, later, Finished,
}
use mbench.CoreLat.Rounds.{Laps, Step-Laps, Reach-Laps}

Pc-cases : (p : Pc) → (p ≡ waiting) ⊎ (p ≡ passing)
Pc-cases waiting = inl refl
Pc-cases passing = inr refl

-- The accesses made of the round that has begun.
abbrev begun : Pc → ℕ
begun waiting = 0
begun passing = 1

-- The accesses that thread `i` still has to make: two a round, none once it has left its loop.
abbrev pub work_of : ℕ → State → ℕ → ℕ
work_of loops s i = 2 * (loops - s.rounds i) - begun (s.pc i)

abbrev pub work : ℕ → ℕ → State → ℕ
work n loops s = total n (work_of loops s)

see-work :
    (n loops : ℕ) (s : State) (i : ℕ)
    → i < n
    → s.pc i ≡ waiting
    → s.rounds i < loops
    → work n loops (record s { pc = update s.pc i passing }) + 1 ≡ work n loops s
see-work n loops s i lt w more =
    omega
      (arith, total-change n (work_of loops t) (work_of loops s) i lt (λ j ne. ground arith), here)
  where
    t : State
    t = record s { pc = update s.pc i passing }

    here : work_of loops t i + 1 ≡ work_of loops s i
    here = ground arith

pass-work :
    (n loops : ℕ) (s : State) (i : ℕ)
    → i < n
    → s.pc i ≡ passing
    → s.rounds i < loops
    → work n loops (record s {
      token = next n i;
      pc = update s.pc i waiting;
      rounds = update s.rounds i (s.rounds i + 1);
    })
        + 1
      ≡ work n loops s
pass-work n loops s i lt p more =
    omega
      (arith, total-change n (work_of loops t) (work_of loops s) i lt (λ j ne. ground arith), here)
  where
    t : State
    t = record s {
      token = next n i;
      pc = update s.pc i waiting;
      rounds = update s.rounds i (s.rounds i + 1);
    }

    here : work_of loops t i + 1 ≡ work_of loops s i
    here = ground arith

total-const : (n c : ℕ) (f : ℕ → ℕ) → ((i : ℕ) → f i ≡ c) → total n f ≡ n * c
total-const zero c f h = omega arith
total-const (suc n) c f h = omega (arith, total-const n c f h, h n)

-- The accesses of a run that found the token or stored it; a spin is none.
pub accesses : {n loops : ℕ} {s : State} → Reach n loops s → ℕ
accesses start = 0
accesses (later reach (spin i lt w more ne)) = accesses reach
accesses (later reach (see i lt w more e)) = accesses reach + 1
accesses (later reach (pass i lt p)) = accesses reach + 1

-- In every run the accesses made, spins aside, and those left to make add up to `2 * loops` a
-- thread: two for each round that is left, less one in a round that has begun.
pub accesses-add-work :
    (n loops : ℕ) (s : State)
    → 0 < n
    → (reach : Reach n loops s) → accesses reach + work n loops s ≡ n * (2 * loops)
unfolding accesses
accesses-add-work n loops s h start =
    omega (arith, total-const n (2 * loops) (work_of loops init) (λ i. omega arith))
accesses-add-work n loops s h (later {s = r} reach (spin i lt w more ne)) =
    accesses-add-work n loops r h reach
accesses-add-work n loops s h (later {s = r} reach (see i lt w more e)) =
    omega (arith, accesses-add-work n loops r h reach, see-work n loops r i lt w more)
accesses-add-work n loops s h (later {s = r} reach (pass i lt p)) =
    let (lap, inv) = Reach-Laps n loops r h reach in
    omega
      (arith, accesses-add-work n loops r h reach, pass-work n loops r i lt p (inv.owner i lt p).1)

-- Every reachable state can go on: all threads have left their loops, or the thread that `token`
-- names makes its next access.
next_access :
    (n loops lap : ℕ) (s : State)
    → Laps n loops lap s
    → Finished n loops s ⊎ ((t : State) × Step n loops s t × (work n loops t + 1 ≡ work n loops s))
next_access n loops lap s inv = elim (Pc-cases (s.pc s.token)) [
  | inr p ↦ inr (
    _,
    pass s.token inv.in_range p,
    pass-work n loops s s.token inv.in_range p (inv.owner s.token inv.in_range p).1,
  )
  | inl w ↦ elim (dec_lt (s.rounds s.token) loops) [
    | yes more ↦
        inr
          (_, see s.token inv.in_range w more refl, see-work n loops s s.token inv.in_range w more)
    | no none ↦ inl (λ i lt. (
      ground (arith, inv.level i lt, inv.level s.token inv.in_range, inv.bounded i lt),
      still i lt none (Pc-cases (s.pc i)),
    ))
  ]
]
  where
    still :
        (i : ℕ)
        → i < n
        → ¬ (s.rounds s.token < loops)
        → (s.pc i ≡ waiting) ⊎ (s.pc i ≡ passing)
        → s.pc i ≡ waiting
    still i lt none (inl w) = w
    still i lt none (inr p) =
        let (owns, more) = inv.owner i lt p in
        absurd (none (subst (λ k. s.rounds k < loops) (sym owns) more))

pub data Run (n loops : ℕ) (s : State) : State → Type 0 where
  stay : Run n loops s s
  on : {t u : State} → Run n loops s t → Step n loops t u → Run n loops s u

Run-on :
    (n loops : ℕ) (s t : State) → Step n loops s t → (u : State) → Run n loops t u → Run n loops s u
Run-on n loops s t st u stay = on stay st
Run-on n loops s t st u (on {t = v} r last) = on (Run-on n loops s t st v r) last

finish :
    (fuel n loops lap : ℕ) (s : State)
    → Laps n loops lap s
    → work n loops s ≤ fuel
    → (t : State) × Run n loops s t × Finished n loops t
finish zero n loops lap s inv h = elim (next_access n loops lap s inv) [
  | inl fin ↦ (s, stay, fin)
  | inr (t, st, e) ↦ absurd (omega arith)
]
finish (suc fuel) n loops lap s inv h = elim (next_access n loops lap s inv) [
  | inl fin ↦ (s, stay, fin)
  | inr (t, st, e) ↦
      let (lap', inv') = Step-Laps n loops lap s t st inv in
      let (u, r, fin) = finish fuel n loops lap' t inv' (omega arith) in
      (u, Run-on n loops s t st u r, fin)
]

-- No deadlock: from every reachable state some run ends with every thread out of its loop.
pub no_lock_finishes :
    (n loops : ℕ) (s : State)
    → 0 < n
    → Reach n loops s
    → (t : State) × Run n loops s t × Finished n loops t
no_lock_finishes n loops s h reach =
    let (lap, inv) = Reach-Laps n loops s h reach in
    finish (work n loops s) n loops lap s inv (omega arith)
