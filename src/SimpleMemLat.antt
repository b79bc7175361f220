-- ===== src/SimpleMemLat.antt =====
-- simpleMemLatChecker.c: one random ring and one measurement of it. Its loops are those of
-- mem_lat.c, but for the test that ends the linking early; its numbers come from `rdrand`.
pub mod Measures
mod Tests
use mbench.Prelude.{
  ℕ, ◌*◌, ◌/◌, ◌%◌, ◌^◌, Bool, ◌&&◌, ◌||◌, Option, none, some, List, [], ◌∷◌, ltb, ◌==◌,
  if◌then◌else◌, to_int, of_int, Mem,
}
use mbench.Floats.{Floats}
use mbench.MemLat.Setup.{Returned, Outcome, returned, exit, sigfpe}
use mbench.MemLat.Setup
use mbench.MemLat.Loops
use mbench.MemLat.Parallel.{clear_range}

-- `(n_done > 10000) && (n_done > rand_ratio * n_segs)`
abbrev pub stop_test : (ℕ → Bool) → ℕ → Bool
stop_test past_ratio n_done = ltb 10000 n_done && past_ratio n_done

-- `setup_rnd`, for the numbers that `rdrand` gives.
abbrev pub setup_rnd : (ℕ → Bool) → ℕ → ℕ → ℕ → Mem → List ℕ → Outcome
setup_rnd past_ratio addr size seg_size m rnds =
    Setup.setup_rnd (stop_test past_ratio) addr size seg_size m (some rnds)

-- `measure_rnd_read`, whose macros and loops are the same.
abbrev pub measure_rnd_read : Mem → ℕ → ℕ → ℕ → ℕ
measure_rnd_read m paddr itr1 itr2 = Loops.measure_rnd_read m paddr itr1 itr2

-- How a run ends, or that the numbers given so far have not linked the ring.
pub data Run : Type 0 where
  usage : Run
  too_small : Run
  bad_ratio : Run
  bad_stride : Run
  no_memory : Run
  linking : Run
  measured : (ptr n_bytes : ℕ) (r : Returned) (paddr : ℕ) → Run

-- What the outside decides: where `posix_memalign` puts the region, the memory, and the numbers.
pub record Machine : Type 0 where
  pub memalign : Option ℕ
  pub mem : Mem
  pub rdrand : List ℕ

pub data Opt : Type 0 where
  s : ℕ → Opt
  m : Opt
  d : ℕ → Opt
  q : ℕ → Opt
  other : Opt

-- `past x n_segs n_done` is `n_done > rand_ratio * n_segs`.
module _ (F : Floats) (past : F.R → ℕ → ℕ → Bool) where
  open F use {R, of_ℕ, lit, litf, mul, ltf}

  pub record Config : Type 0 where
    pub mem_size_per_thread_in_kb : ℕ
    pub scale : ℕ
    pub stride : ℕ
    pub rand_ratio : R

  pub defaults : Config
  defaults = record {
    mem_size_per_thread_in_kb = 4;
    scale = 1;
    stride = 64;
    rand_ratio = litf 99 2;
  }

  -- `none` is `exit(EXIT_FAILURE)`.
  unfoldable pub set_option : Config → Opt → Option Config
  set_option g (Opt.s v) = some (record g { mem_size_per_thread_in_kb = v })
  set_option g Opt.m = some (record g { scale = 1024 })
  set_option g (Opt.d v) = some (record g { stride = v })
  set_option g (Opt.q v) = some (record g { rand_ratio = mul (of_ℕ v) (litf 1 2) })
  set_option g Opt.other = none

  unfoldable pub set_options : Config → List Opt → Option Config
  set_options g [] = some g
  set_options g (o ∷ os) = elim (set_option g o) [ none ↦ none | some g' ↦ set_options g' os ]

  -- `pos = *pptr` and the measurement.
  abbrev pub read_after : ℕ → ℕ → Outcome → Run
  read_after ptr n_bytes (returned r) = measured ptr n_bytes r (measure_rnd_read r.mem ptr 100 100)
  read_after ptr n_bytes exit = linking
  read_after ptr n_bytes sigfpe = bad_stride

  -- The conversion of `stride` to the `int` of `setup_rnd` keeps its low 32 bits.
  unfoldable pub measure_rdlat_user : ℕ → ℕ → R → Machine → Run
  measure_rdlat_user n_bytes stride rand_ratio mach =
      if stride == 0 then bad_stride else elim mach.memalign [
        | none ↦ no_memory
        | some ptr ↦ read_after ptr n_bytes (
            setup_rnd (past rand_ratio (n_bytes / of_int (to_int stride))) ptr n_bytes
              (of_int (to_int stride)) (clear_range mach.mem ptr n_bytes) mach.rdrand)
      ]

  -- `main` after the options.
  unfoldable pub checked : Config → Machine → Run
  checked g mach =
      let kb = g.mem_size_per_thread_in_kb * g.scale % 2 ^ 64 in
      if ltb kb 4
      then too_small
      else if ltf g.rand_ratio (lit 80 2) || ltf (lit 100 2) g.rand_ratio
      then bad_ratio
      else measure_rdlat_user (kb * 1024 % 2 ^ 64) g.stride g.rand_ratio mach

  unfoldable pub main : List Opt → Machine → Run
  main os mach = elim (set_options defaults os) [ none ↦ usage | some g ↦ checked g mach ]
