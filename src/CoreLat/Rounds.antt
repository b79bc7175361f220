-- ===== src/CoreLat/Rounds.antt =====
-- The invariant of the ring of threads: they are all in the same lap, those below the token one
-- round ahead.
use mbench.Prelude.{ℕ, ◌+◌, ◌≤◌, ◌<◌, ◌≡◌, ◌≢◌, arith, ltb, if◌then◌else◌, ℕ_discrete}
use native.Mathlib.Nat.{mod-eq_of_lt}
use mbench.CoreLat.{waiting, passing, State, next, init, Step, spin, see, pass, Reach, start, later}

pub record Laps (n loops lap : ℕ) (s : State) : Type 0 where
  pub in_range : s.token < n
  pub level : (i : ℕ) → i < n → s.rounds i ≡ lap + (if ltb i s.token then 1 else 0)
  pub owner : (i : ℕ) → i < n → s.pc i ≡ passing → (s.token ≡ i) × (s.rounds i < loops)
  pub bounded : (i : ℕ) → i < n → s.rounds i ≤ loops

waiting-ne-passing : waiting ≢ passing
waiting-ne-passing e = cc

next-cases : (n i : ℕ) → i < n → i + 1 < n → next n i ≡ i + 1
next-cases n i h lt = mod-eq_of_lt lt

next-last : (n i : ℕ) → i + 1 ≡ n → next n i ≡ 0
next-last n i e = grind arith

pub Step-Laps :
    (n loops lap : ℕ) (s t : State)
    → Step n loops s t
    → Laps n loops lap s
    → (lap' : ℕ) × Laps n loops lap' t
Step-Laps n loops lap s t (spin i lt w more ne) inv = (lap, inv)
Step-Laps n loops lap s t (see i lt w more e) inv = (
  lap,
  record {
    in_range = inv.in_range;
    level = inv.level;
    owner = λ j lj p. ground (arith, inv.owner j lj);
    bounded = inv.bounded;
  },
)
Step-Laps n loops lap s t (pass i lt p) inv = elim (ℕ_discrete (i + 1) n) [
  | yes last ↦ (
    lap + 1,
    record {
      in_range = rw (next-last n i last) (omega arith);
      level = λ j lj. rw (next-last n i last) (ground (arith, inv.level j lj, inv.owner i lt p));
      owner = λ j lj q. ground (arith, inv.owner i lt p, inv.owner j lj);
      bounded = λ j lj. ground (arith, inv.owner i lt p, inv.bounded j lj);
    },
  )
  | no more ↦ (
    lap,
    record {
      in_range = rw (next-cases n i lt (omega arith)) (omega arith);
      level = λ j lj.
          rw (next-cases n i lt (omega arith)) (ground (arith, inv.level j lj, inv.owner i lt p));
      owner = λ j lj q. ground (arith, inv.owner i lt p, inv.owner j lj);
      bounded = λ j lj. ground (arith, inv.owner i lt p, inv.bounded j lj);
    },
  )
]

init-Laps : (n loops : ℕ) → 0 < n → Laps n loops 0 init
init-Laps n loops h = record {
  in_range = h;
  level = λ i lt. ground arith;
  owner = λ i lt e. absurd (waiting-ne-passing e);
  bounded = λ i lt. omega arith;
}

-- In every reachable state the token names a thread, and for some number of full laps each thread
-- below the token has passed it once more than that number, and each other thread as often; only
-- the thread that the token names can be between its test and its store, and none exceeds `loops`.
pub Reach-Laps :
    (n loops : ℕ) (s : State) → 0 < n → Reach n loops s → (lap : ℕ) × Laps n loops lap s
Reach-Laps n loops s h start = (0, init-Laps n loops h)
Reach-Laps n loops s h (later {s = r} {t} reach step) =
    let (lap, inv) = Reach-Laps n loops r h reach in Step-Laps n loops lap r t step inv
