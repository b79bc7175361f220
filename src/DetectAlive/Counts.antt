-- ===== src/DetectAlive/Counts.antt =====
-- What holds of the counts of `worker` in every state, and when it never ends.
use mbench.Prelude.{ℕ, ◌+◌, ◌≤◌, ◌<◌, ◌≡◌, refl, arith}
use mathlib.Core.Path.{subst}
use mbench.DetectAlive.{max_conn_one, max_ip_addr, first_addr, total_n, Pc, Worker, Step, Steps}

-- In the loop that starts there is at most one connection for each turn.
abbrev InTurns : Pc → ℕ → ℕ → Type 0
InTurns (Pc.starting i) nconn nclose = (nconn ≤ i) × (i ≤ max_conn_one) × (nclose ≡ 0)
InTurns Pc.testing nconn nclose = Unit
InTurns Pc.refilling nconn nclose = Unit
InTurns Pc.finished nconn nclose = Unit
InTurns Pc.failed nconn nclose = Unit

record Counts (s : Worker) : Type 0 where
  balance : s.nclose + s.open_fds ≡ s.nconn
  few : s.nconn ≤ s.nclose + max_conn_one
  bounded : s.nconn ≤ total_n
  fresh : first_addr + s.nconn + s.leaked ≤ s.ipv4addr
  turns : InTurns s.pc s.nconn s.nclose

-- Past the loop that starts, and not out by the test.
abbrev pub Looping : Pc → Type 0
Looping (Pc.starting i) = ⊥
Looping Pc.testing = Unit
Looping Pc.refilling = Unit
Looping Pc.finished = ⊥
Looping Pc.failed = Unit

record Short (addr : ℕ) (s : Worker) : Type 0 where
  full : total_n ≤ s.nconn
  still : s.ipv4addr ≡ addr
  short : addr < max_ip_addr
  looping : Looping s.pc

Step-Short : (addr : ℕ) (s t : Worker) → Short addr s → Step s t → Short addr t
Step-Short addr s t h (Step.start_connect i result at lt le taken) =
    absurd (subst Looping at h.looping)
Step-Short addr s t h (Step.start_done i at end) = absurd (subst Looping at h.looping)
Step-Short addr s t h (Step.wait nfds at on le most low) = record {
  full = h.full;
  still = h.still;
  short = h.short;
  looping = tt;
}
Step-Short addr s t h (Step.wait_only nfds at on le most high) =
    absurd (omega (arith, h.short, h.still, high))
Step-Short addr s t h (Step.wait_fails at on) = record {
  full = h.full;
  still = h.still;
  short = h.short;
  looping = tt;
}
Step-Short addr s t h (Step.refill result at room more taken) = absurd (omega (arith, h.full, more))
Step-Short addr s t h (Step.refill_done at end) = record {
  full = h.full;
  still = h.still;
  short = h.short;
  looping = tt;
}
Step-Short addr s t h (Step.leave at (all_made, closed, tried)) =
    absurd (omega (arith, h.short, h.still, tried))

Steps-Short : (addr : ℕ) (s t : Worker) → Short addr s → Steps s t → Short addr t
Steps-Short addr s t h Steps.here = h
Steps-Short addr s t h (Steps.after u v steps step) =
    Step-Short addr u t (Steps-Short addr s u h steps) step

-- Once `worker`, past the loop that starts, has made 150000 connections before it has tried the
-- addresses below 0x0a170000, it tries no other address and never leaves its loop by the test,
-- whatever the system answers.
pub worker_spins :
    (s t : Worker)
    → total_n ≤ s.nconn
    → s.ipv4addr < max_ip_addr
    → Looping s.pc
    → Steps s t
    → (t.ipv4addr ≡ s.ipv4addr) × Looping t.pc
worker_spins s t full short looping steps =
    let h =
      Steps-Short s.ipv4addr s t
        (record { full = full; still = refl; short = short; looping = looping }) steps in
    (h.still, h.looping)
