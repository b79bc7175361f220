-- ===== src/FreqLat.antt =====
-- freqLat.c: a ring that leads through the segments of a buffer from its end to its start. The
-- loops that read it are word for word those of mem_lat.c.
pub mod Backwards
mod Tests
use mbench.Prelude.{
  ℕ, zero, suc, ◌+◌, ◌-◌, ◌*◌, ◌/◌, ◌%◌, ◌^◌, Option, none, some, List, [], ◌∷◌, ltb, ◌==◌,
  if◌then◌else◌, Mem, store,
}
use mbench.MemLat.Loops

-- Pointers and `unsigned long` wrap at 2^64.
abbrev pub add64 : ℕ → ℕ → ℕ
add64 x y = (x + y) % 2 ^ 64

abbrev pub sub64 : ℕ → ℕ → ℕ
sub64 x y = (x + (2 ^ 64 - y)) % 2 ^ 64

-- The loop that links each segment to the one below: memory and `pos_shadow`. It is for strides of
-- 8 or more, with which the words of the segments do not overlap.
unfoldable pub link : ℕ → ℕ → Mem × ℕ → Mem × ℕ
link stride zero w = w
link stride (suc left) (m, pos_shadow) =
    link stride left (store m pos_shadow (sub64 pos_shadow stride), sub64 pos_shadow stride)

-- `for (i = 1; i < n_segs; i++)` makes that many turns.
abbrev pub turns : ℕ → ℕ
turns n_segs = n_segs - 1

-- The whole ring: the memory, and `pos`, where the reads begin.
unfoldable pub build : ℕ → ℕ → ℕ → Mem → Mem × ℕ
build pptr n_bytes stride m =
    let (m', pos) =
      link stride (turns (n_bytes / stride))
        (m, add64 pptr (stride * sub64 (n_bytes / stride) 1 % 2 ^ 64)) in
    (store m' pos (sub64 (add64 pptr n_bytes) stride), pos)

-- `measure_rnd_read`, whose macros and loops are the same.
abbrev pub measure_rnd_read : Mem → ℕ → ℕ → ℕ → ℕ
measure_rnd_read m paddr itr1 itr2 = Loops.measure_rnd_read m paddr itr1 itr2

-- How a run ends; a measurement has the memory, where it began and what it left in `pos`.
pub data Run : Type 0 where
  usage : Run
  too_small : Run
  bad_stride : Run
  no_memory : Run
  measured : (m : Mem) (pos after : ℕ) → Run

-- `none` is a `posix_memalign` that fails.
unfoldable pub measure_rdlat_user : ℕ → ℕ → Option ℕ → Mem → Run
measure_rdlat_user n_bytes stride memalign m = if stride == 0 then bad_stride else elim memalign [
  | none ↦ no_memory
  | some pptr ↦
      let (w, pos) = build pptr n_bytes stride m in
      measured w pos (measure_rnd_read w pos 1000 1000)
]

-- The option string has `m` and `q` too, which end the program like an unknown option.
pub data Opt : Type 0 where
  s : ℕ → Opt
  d : ℕ → Opt
  other : Opt

pub record Config : Type 0 where
  pub mem_size_per_thread_in_kb : ℕ
  pub stride : ℕ

unfoldable pub set_options : Config → List Opt → Option Config
set_options g [] = some g
set_options g (Opt.s v ∷ os) = set_options (record g { mem_size_per_thread_in_kb = v }) os
set_options g (Opt.d v ∷ os) = set_options (record g { stride = v }) os
set_options g (other ∷ os) = none

unfoldable pub checked : Config → Option ℕ → Mem → Run
checked g memalign m =
    if ltb g.mem_size_per_thread_in_kb 4
    then too_small
    else measure_rdlat_user (g.mem_size_per_thread_in_kb * 1024 % 2 ^ 64) g.stride memalign m

unfoldable pub main : List Opt → Option ℕ → Mem → Run
main os memalign m =
    elim (set_options (record { mem_size_per_thread_in_kb = 16; stride = 128 }) os) [
      | none ↦ usage
      | some g ↦ checked g memalign m
    ]
