-- ===== src/DetectAlive/Tests.antt =====
-- Steps of `worker` and examples of the theorems about it.
use mbench.Prelude.{◌+◌, ◌/◌, ◌%◌, ◌≤◌, ◌≡◌, ◌≢◌, inl, inr, refl, none, some, arith}
use mbench.DetectAlive.{target, Pc, Worker, init, attempt, made, Step, Steps}
use mbench.DetectAlive.Counts.{Looping, worker_spins}
use mbench.DetectAlive.Targets.{target_skips}

last_byte : target (167968768 + 255) ≡ some (167968768 + 268)
unfolding target
last_byte = refl

target_skips_example :
    ((167968768 + 268) % 256 ≢ 255)
    × ((167968768 + 268) / 256 % 256 ≢ 255)
    × ((167968768 + 268) / 65536 % 256 ≢ 23)
    × (167968768 + 255 ≤ 167968768 + 268)
    × (167968768 + 268 ≤ 167968768 + 255 + 269)
target_skips_example = target_skips (167968768 + 255) (167968768 + 268) last_byte

second_byte : target 169279488 ≡ none
unfolding target
second_byte = refl

-- The first connection.
abbrev one : Worker
one = attempt init made (Pc.starting 1)

abbrev all_made : Worker
all_made = record {
  pc = Pc.testing;
  ipv4addr = 168118768;
  nconn = 150000;
  nclose = 149000;
  open_fds = 1000;
  leaked = 0;
}

abbrev some_closed : Worker
some_closed = record all_made { pc = Pc.refilling; nclose = 149500; open_fds = 500 }

closing : Steps all_made some_closed
closing =
    Steps.after all_made some_closed Steps.here
      (Step.wait 500 refl (inr (inl (omega arith))) (omega arith) (omega arith) (omega arith))

worker_spins_example : (some_closed.ipv4addr ≡ all_made.ipv4addr) × Looping Pc.refilling
worker_spins_example = worker_spins all_made some_closed (omega arith) (omega arith) tt closing
