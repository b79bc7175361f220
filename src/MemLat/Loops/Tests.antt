-- ===== src/MemLat/Loops/Tests.antt =====
-- The read and fill loops on a ring of two segments of 16 bytes at 0x1000.
use mbench.Prelude.{
  ℕ, zero, suc, ◌<◌, ◌≢◌, ◌==◌, if◌then◌else◌, ◌*◌, ◌%◌, ◌+◌, ◌≡◌, refl, Mem, chase, arith,
}
use mbench.Ring.{Period}
use mbench.MemLat.Setup.Tests.{linked, linked-Ring}
use mbench.MemLat.Loops.{read_outer, measure_rnd_read, measure_rnd_fill}
use mbench.MemLat.Loops.Read.{measure_rnd_read_ring}
use mbench.MemLat.Loops.Fill.{measure_rnd_fill-Ring}

abbrev two : Mem
two a = if a == 0x1000 then 0x1010 else if a == 0x1010 then 0x1000 else 0

two-Period : Period two 0x1000 2
two-Period = (omega arith, refl, early)
  where
    early : (k : ℕ) → 0 < k → k < 2 → chase two k 0x1000 ≢ 0x1000
    early zero pos lt = absurd (omega arith)
    early (suc zero) pos lt = omega arith
    early (suc (suc k)) pos lt = absurd (omega arith)

measure_rnd_read_ring_example :
    (read_outer two 1 3 0x1000 ≡ chase two (1 * 3 * 100 % 2) 0x1000)
    × (measure_rnd_read two 0x1000 1 3 ≡ chase two ((1 * 3 * 100 + 1) % 2) 0x1000)
measure_rnd_read_ring_example = measure_rnd_read_ring two 0x1000 2 1 3 two-Period

measure_rnd_fill-Ring_example :
    ((measure_rnd_fill linked.mem 0x1000 2 3).1 ≡ chase linked.mem (2 * 3 * 100) 0x1000)
    × ((j : ℕ)
        → (measure_rnd_fill linked.mem 0x1000 2 3).0 (chase linked.mem j 0x1000)
          ≡ linked.mem (chase linked.mem j 0x1000))
measure_rnd_fill-Ring_example =
    measure_rnd_fill-Ring 0x1000 64 16 _ 2 3 linked-Ring.0 linked (omega arith) linked-Ring.1
