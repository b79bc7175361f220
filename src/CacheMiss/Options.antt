-- ===== src/CacheMiss/Options.antt =====
-- `main` of ParallelCacheMiss.c: its options, the allocation, and the one measurement.
pub mod Measures
use mbench.Prelude.{
  ℕ, ◌*◌, ◌/◌, ◌^◌, ◌%◌, Bool, true, false, ◌||◌, Option, none, some, List, [], ◌∷◌, ltb, ◌==◌,
  if◌then◌else◌, to_int, of_int, Mem,
}
use mathlib.Core.Path.{subst}
use mbench.Floats.{Floats}
use mbench.CacheMiss.{State, Outcome, looping, returned, sigfpe, setup_rnd, measure_rnd_read}
use mbench.CacheMiss.Inside.{Inside, InsideNow, setup_rnd-InsideNow}

-- `alloc_memory`: where `mmap` and `posix_memalign` put the region, if they do; `none` is `exit`.
unfoldable pub alloc_memory : Bool → Option ℕ → Option ℕ → Option ℕ
alloc_memory true (some ptr) memalign = some ptr
alloc_memory true none memalign = memalign
alloc_memory false mmap memalign = memalign

-- How a run ends, or that it is still linking the ring.
pub data Run : Type 0 where
  usage : Run
  too_small : Run
  bad_ratio : Run
  no_memory : Run
  bad_stride : Run
  linking : State → Run
  measured : (ptr n_bytes : ℕ) (m : Mem) (paddr : ℕ) → Run

pub data Opt : Type 0 where
  s : ℕ → Opt
  m : Opt
  l : Opt
  d : ℕ → Opt
  q : ℕ → Opt
  other : Opt

-- What the outside decides: the two allocations, the memory, and the numbers of `random`.
pub record Machine : Type 0 where
  pub mmap : Option ℕ
  pub memalign : Option ℕ
  pub mem : Mem
  pub random : List ℕ

-- `prl` is the `PRL` of the build; `past x n_segs n_done` is `n_done > rand_ratio * n_segs`.
module _ (F : Floats) (prl : ℕ) (past : F.R → ℕ → ℕ → Bool) where
  open F use {R, of_ℕ, lit, litf, mul, ltf}

  pub record Config : Type 0 where
    pub mem_size_per_thread_in_kb : ℕ
    pub scale : ℕ
    pub stride : ℕ
    pub rand_ratio : R
    pub hugepage_forced : Bool

  unfoldable pub defaults : Config
  defaults = record {
    mem_size_per_thread_in_kb = 4;
    scale = 1;
    stride = 64;
    rand_ratio = litf 99 2;
    hugepage_forced = false;
  }

  unfoldable pub set_option : Config → Opt → Option Config
  set_option g (Opt.s v) = some (record g { mem_size_per_thread_in_kb = v })
  set_option g Opt.m = some (record g { scale = 1024 })
  set_option g Opt.l = some (record g { hugepage_forced = true })
  set_option g (Opt.d v) = some (record g { stride = v })
  set_option g (Opt.q v) = some (record g { rand_ratio = mul (of_ℕ v) (litf 1 2) })
  set_option g Opt.other = none

  unfoldable pub set_options : Config → List Opt → Option Config
  set_options g [] = some g
  set_options g (o ∷ os) = elim (set_option g o) [ none ↦ none | some g' ↦ set_options g' os ]

  abbrev pub read_after : ℕ → ℕ → ℕ → Outcome → Run
  read_after ptr n_bytes stride (looping t) = linking t
  read_after ptr n_bytes stride (returned w) =
      measured ptr n_bytes w (measure_rnd_read w prl ptr stride 100 10000)
  read_after ptr n_bytes stride sigfpe = bad_stride

  -- The conversion of `stride` to the `int` of `setup_rnd` keeps its low 32 bits.
  unfoldable pub measure_rdlat_user : Bool → ℕ → ℕ → R → Machine → Run
  measure_rdlat_user hugepage_forced n_bytes stride rand_ratio mach =
      if stride == 0
      then bad_stride
      else elim (alloc_memory hugepage_forced mach.mmap mach.memalign) [
        | none ↦ no_memory
        | some ptr ↦ read_after ptr n_bytes stride (
            setup_rnd (past rand_ratio (n_bytes / of_int (to_int stride))) ptr n_bytes
              (of_int (to_int stride)) mach.mem mach.random)
      ]

  -- `main` after the options: `mem_size_per_thread_in_kb *= scale` and the checks.
  unfoldable pub checked : Config → Machine → Run
  checked g mach =
      let kb = g.mem_size_per_thread_in_kb * g.scale % 2 ^ 64 in
      if ltb kb 4
      then too_small
      else if ltf g.rand_ratio (lit 1 2) || ltf (lit 100 2) g.rand_ratio
      then bad_ratio
      else measure_rdlat_user g.hugepage_forced (kb * 1024 % 2 ^ 64) g.stride g.rand_ratio mach

  unfoldable pub main : List Opt → Machine → Run
  main os mach = elim (set_options defaults os) [ none ↦ usage | some g ↦ checked g mach ]
