-- ===== src/CoreLat/Tests.antt =====
-- Two threads that pass the token once each.
use mbench.Prelude.{ℕ, zero, suc, ◌+◌, ◌*◌, ◌≡◌, refl, arith, update}
use mbench.CoreLat.{
  State, init, waiting, passing, see, pass, Reach, start, later, CasReach, Finished,
}
use mbench.CoreLat.Rounds.{Laps, Reach-Laps}
use mbench.CoreLat.Finish.{Run, work, accesses, accesses-add-work, no_lock_finishes}
use mbench.CoreLat.Cas.{view, cas_lock_equiv}

abbrev seen : State
seen = record init { pc = update init.pc 0 passing }

seen_reach : Reach 2 1 seen
seen_reach = later start (see 0 (omega arith) refl (omega arith) refl)

abbrev passed : State
passed = record { token = 1; pc = update seen.pc 0 waiting; rounds = update seen.rounds 0 1 }

passed_reach : Reach 2 1 passed
passed_reach = later seen_reach (pass 0 (omega arith) refl)

Reach-Laps_example : (lap : ℕ) × Laps 2 1 lap passed
Reach-Laps_example = Reach-Laps 2 1 passed (omega arith) passed_reach

-- Both threads have passed the token.
abbrev ended : State
ended = record {
  token = 0;
  pc = update (update passed.pc 1 passing) 1 waiting;
  rounds = update passed.rounds 1 1;
}

ended_reach : Reach 2 1 ended
ended_reach =
    later (later passed_reach (see 1 (omega arith) refl (omega arith) refl))
      (pass 1 (omega arith) refl)

ended-Finished : Finished 2 1 ended
ended-Finished zero lt = (refl, refl)
ended-Finished (suc zero) lt = (refl, refl)
ended-Finished (suc (suc i)) lt = absurd (omega arith)

accesses-add-work_example : accesses passed_reach + work 2 1 passed ≡ 2 * (2 * 1)
accesses-add-work_example = accesses-add-work 2 1 passed (omega arith) passed_reach

no_lock_finishes_example : (t : State) × Run 2 1 passed t × Finished 2 1 t
no_lock_finishes_example = no_lock_finishes 2 1 passed (omega arith) passed_reach

cas_lock_equiv_example :
    (CasReach 2 1 init → Reach 2 1 init × (view init ≡ init))
    × ((t : State) → Reach 2 1 t → view t ≡ init → CasReach 2 1 init)
cas_lock_equiv_example = cas_lock_equiv 2 1 init (omega arith)
