-- ===== src/CacheMiss/Tests.antt =====
-- A region of 4 KB with 64 segments at 0x1000, and small rings.
use mbench.Prelude.{
  ℕ, suc, ◌+◌, ◌*◌, ◌^◌, ◌%◌, ◌≤◌, ◌≡◌, refl, Bool, true, false, some, none, [], ◌∷◌, arith, ltb,
  if◌then◌else◌, Mem, store, chase,
}
use mbench.Floats.Tests.{hundredths}
use mbench.MemLat.Setup.Invariant.{Cell}
use mbench.CacheMiss.{
  returned, sigfpe, setup_rnd, free_from, fill, attempt, close, read_outer, starts, pointers,
}
use mbench.CacheMiss.Inside.{Inside, InsideNow, setup_rnd-InsideNow}
use mbench.CacheMiss.Walks.{read_outer_walks}
use mbench.CacheMiss.Options.{
  Machine, Config, Run, measured, too_small, usage, defaults, set_options, set_option, checked,
  main, measure_rdlat_user, alloc_memory, s, other,
}
use mbench.CacheMiss.Options.Measures.{Sound, checked-Sound}

abbrev never : ℕ → Bool
never n_done = false

abbrev dirty : Mem
dirty a = suc a

-- Two segments: picked are the second and then the first, which is taken by then, and the second,
-- which the ring stands on.
abbrev after : Mem
after =
    store
      (store (store (store (store dirty 0x1000 0x1000) 0x1010 0x1000) 0x1000 0x1010) 0x1010 0x1010)
      0x1010 0x1000

setup_rnd_two : setup_rnd never 0x1000 32 16 dirty (1 ∷ 0 ∷ 1 ∷ []) ≡ returned after
unfolding setup_rnd free_from fill attempt close
setup_rnd_two = refl

setup_rnd_none : setup_rnd never 0x1000 8 16 dirty (1 ∷ []) ≡ sigfpe
unfolding setup_rnd
setup_rnd_none = refl

setup_rnd-InsideNow_example :
    InsideNow 0x1000 32 16 (setup_rnd never 0x1000 32 16 dirty (1 ∷ 0 ∷ []))
setup_rnd-InsideNow_example =
    setup_rnd-InsideNow never 0x1000 32 16 dirty (1 ∷ 0 ∷ []) (omega arith) (omega arith)

-- All segments point to the first.
abbrev star : Mem
star a = 0x1000

star-Inside : Inside 0x1000 4096 64 star
star-Inside a c = (0, omega arith, refl)

read_outer_walks_example :
    (read_outer star 8 100 10000 (starts 0x1000 64) 3 ≡ (
      if ltb 3 (pointers 8)
      then chase star (100 * (10000 * 100)) (0x1000 + 3 * 64)
      else 0x1000 + 3 * 64))
    × Cell 0x1000 4096 64 (read_outer star 8 100 10000 (starts 0x1000 64) 3)
read_outer_walks_example =
    read_outer_walks 0x1000 4096 64 8 100 10000 star (omega arith) star-Inside 3 (omega arith)

abbrev past : ℕ → ℕ → ℕ → Bool
past ratio n_segs n_done = ltb (ratio * n_segs) (n_done * 100)

abbrev mach : Machine
mach = record { mmap = none; memalign = some 0x1000; mem = dirty; random = 1 ∷ 0 ∷ 1 ∷ [] }

few_bytes : main hundredths 8 past (s 3 ∷ []) mach ≡ too_small
unfolding main set_options set_option defaults checked
few_bytes = refl

bad_option : main hundredths 8 past (s 3 ∷ other ∷ []) mach ≡ usage
unfolding main set_options set_option defaults
bad_option = refl

-- Two segments of 2 KB.
abbrev two_segs : Config hundredths 8 past
two_segs = record {
  mem_size_per_thread_in_kb = 4;
  scale = 1;
  stride = 2048;
  rand_ratio = 99;
  hugepage_forced = true;
}

abbrev memory : Run → Mem
memory (measured ptr n_bytes w v) = w
memory r = dirty

abbrev value : Run → ℕ
value (measured ptr n_bytes w v) = v
value r = 0

measures :
    checked hundredths 8 past two_segs mach
    ≡ measured 0x1000 4096
        (memory (checked hundredths 8 past two_segs mach))
        (value (checked hundredths 8 past two_segs mach))
unfolding checked measure_rdlat_user alloc_memory setup_rnd free_from fill attempt close
measures = refl

checked-Sound_example :
    Sound hundredths 8 past 2048 mach true 0x1000 4096
      (memory (checked hundredths 8 past two_segs mach))
    × (4 ≤ 4 * 1 % 2 ^ 64)
    × (4096 ≡ 4 * 1 % 2 ^ 64 * 1024 % 2 ^ 64)
checked-Sound_example =
    checked-Sound hundredths 8 past two_segs mach 0x1000 4096 _ _ (omega arith) (omega arith)
      measures
