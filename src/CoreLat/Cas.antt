-- ===== src/CoreLat/Cas.antt =====
-- no_lock.c and cas_lock.c hand the token round alike: each implements the other.
use mathlib.Core.Path.{fun_ext, subst}
use mbench.Prelude.{ℕ, ◌+◌, ◌<◌, ◌≡◌, refl, sym, ap, arith, update}
use mbench.CoreLat.{
  Pc, waiting, passing, State, next, spin, see, pass, Reach, start, later, lose, win, CasReach,
  cas_start, cas_later,
}
use mbench.CoreLat.Rounds.{Reach-Laps}

-- The state without where the threads stand: a thread between its test and its store has not
-- passed the token yet.
abbrev pub view : State → State
view s = record s { pc = λ _. waiting }

pub no_lock_refines_cas :
    (n loops : ℕ) (s : State) → 0 < n → Reach n loops s → CasReach n loops (view s)
no_lock_refines_cas n loops s h start = cas_start
no_lock_refines_cas n loops s h (later {s = r} reach (spin i lt w more ne)) =
    no_lock_refines_cas n loops r h reach
no_lock_refines_cas n loops s h (later {s = r} reach (see i lt w more e)) =
    no_lock_refines_cas n loops r h reach
no_lock_refines_cas n loops s h (later {s = r} reach (pass i lt p)) =
    let (lap, inv) = Reach-Laps n loops r h reach in
    let (owns, more) = inv.owner i lt p in
    cas_later (no_lock_refines_cas n loops r h reach) (win i lt more owns)

back : (r : State) (i : ℕ) → r.pc i ≡ waiting → update (update r.pc i passing) i waiting ≡ r.pc
back r i w = fun_ext (λ j. ground arith)

cas_refines_no_lock :
    (n loops : ℕ) (s : State) → CasReach n loops s → (s.pc ≡ λ _. waiting) × Reach n loops s
cas_refines_no_lock n loops s cas_start = (refl, start)
cas_refines_no_lock n loops s (cas_later {s = r} reach (lose i lt more ne)) =
    cas_refines_no_lock n loops r reach
cas_refines_no_lock n loops s (cas_later {s = r} reach (win i lt more e)) =
    let (idle, reach') = cas_refines_no_lock n loops r reach in
    let w : r.pc i ≡ waiting = ap (λ (pc : ℕ → Pc). pc i) idle in
    (
      idle,
      subst
          (λ pc.
            Reach n loops
              (record r { token = next n i; pc = pc; rounds = update r.rounds i (r.rounds i + 1) }))
          (back r i w) (later (later reach' (see i lt w more e)) (pass i lt (ground arith))),
    )

-- The states that cas_lock.c reaches are exactly the views of those that no_lock.c reaches, and
-- are reached there with every thread before its test.
pub cas_lock_equiv :
    (n loops : ℕ) (s : State)
    → 0 < n
    → (CasReach n loops s → Reach n loops s × (view s ≡ s))
      × ((t : State) → Reach n loops t → view t ≡ s → CasReach n loops s)
cas_lock_equiv n loops s h = (
  λ r.
      let (idle, reach) = cas_refines_no_lock n loops s r in
      (reach, ap (λ pc. record s { pc = pc }) (sym idle)),
  λ t r e. subst (CasReach n loops) e (no_lock_refines_cas n loops t h r),
)
