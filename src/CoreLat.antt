-- ===== src/CoreLat.antt =====
-- core_lat/no_lock.c and core_lat/cas_lock.c: a token handed round by the threads of `measure`.
pub mod Rounds
pub mod Finish
pub mod Cas
mod Tests
use mbench.Prelude.{ℕ, ◌+◌, ◌%◌, ◌<◌, ◌≡◌, ◌≢◌}
use mbench.Prelude.{update}

-- Where a thread stands in its `for` loop: before the test of `token`, or, in no_lock.c only,
-- past the test and before the store.
pub data Pc : Type 0 where
  waiting : Pc
  passing : Pc

pub record State : Type 0 where
  pub token : ℕ
  pub pc : ℕ → Pc
  pub rounds : ℕ → ℕ  -- `i` of each thread

-- `next = (idx + 1) % n_threads`
abbrev pub next : ℕ → ℕ → ℕ
next n idx = (idx + 1) % n

abbrev pub init : State
init = record { token = 0; pc = λ _. waiting; rounds = λ _. 0 }

module _ (n loops : ℕ) where
  -- One shared access of thread `idx`.
  pub data Step (s : State) : State → Type 0 where
    spin :
        (idx : ℕ) → idx < n → s.pc idx ≡ waiting → s.rounds idx < loops → s.token ≢ idx → Step s s
    see :
        (idx : ℕ)
        → idx < n
        → s.pc idx ≡ waiting
        → s.rounds idx < loops
        → s.token ≡ idx
        → Step s (record s { pc = update s.pc idx passing })
    pass :
        (idx : ℕ)
        → idx < n
        → s.pc idx ≡ passing
        → Step s (record s {
          token = next n idx;
          pc = update s.pc idx waiting;
          rounds = update s.rounds idx (s.rounds idx + 1);
        })

  pub data Reach : State → Type 0 where
    start : Reach init
    later : {s t : State} → Reach s → Step s t → Reach t

  -- `__sync_bool_compare_and_swap(&token, idx, next)`: test and store in one access.
  pub data CasStep (s : State) : State → Type 0 where
    lose : (idx : ℕ) → idx < n → s.rounds idx < loops → s.token ≢ idx → CasStep s s
    win :
        (idx : ℕ)
        → idx < n
        → s.rounds idx < loops
        → s.token ≡ idx
        → CasStep s
            (record s { token = next n idx; rounds = update s.rounds idx (s.rounds idx + 1) })

  pub data CasReach : State → Type 0 where
    cas_start : CasReach init
    cas_later : {s t : State} → CasReach s → CasStep s t → CasReach t

  -- Every thread has left its loop.
  abbrev pub Finished : State → Type 0
  Finished s = (i : ℕ) → i < n → (s.rounds i ≡ loops) × (s.pc i ≡ waiting)
