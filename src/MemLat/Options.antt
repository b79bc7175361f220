-- ===== src/MemLat/Options.antt =====
-- The command line of mem_lat.c: the option loop of `main` and the checks after it.
pub mod Accepts
mod Tests
use mbench.Prelude.{
  ℕ, ◌*◌, ◌/◌, Bool, true, false, ◌&&◌, ◌||◌, Option, none, some, List, [], ◌∷◌, ltb, ◌==◌,
  if◌then◌else◌, int_lt, int_gt, to_int, of_int,
}
use mbench.Floats.{Floats}

-- What `getopt` returns: an option with the number that `strtoul` reads from its argument, or
-- something else, such as '?'.
pub data Opt : Type 0 where
  n : ℕ → Opt
  s : ℕ → Opt
  m : Opt
  l : Opt
  d : ℕ → Opt
  c : ℕ → Opt
  b : Opt
  q : ℕ → Opt
  other : Opt

abbrev pub max_threads : ℕ
max_threads = 256

module _ (F : Floats) where
  open F use {R, of_ℕ, lit, litf, mul, ltf}

  -- The globals that the options set. An `int` is its 32-bit pattern.
  pub record Config : Type 0 where
    pub num_threads : ℕ
    pub mem_size_per_thread_in_kb : ℕ
    pub test_case : ℕ
    pub cpubind : ℕ
    pub stride : ℕ
    pub hugepage_forced : ℕ
    pub rand_ratio : R
    pub mega : ℕ
    pub default_loop : ℕ
    pub no_default_size : Bool

  pub defaults : Config
  defaults = record {
    num_threads = 1;
    mem_size_per_thread_in_kb = 16;
    test_case = 0;
    cpubind = 0;
    stride = 256;
    hugepage_forced = 0;
    rand_ratio = lit 95 2;
    mega = 1;
    default_loop = 1000;
    no_default_size = false;
  }

  -- One turn of the option loop; `none` is `print_help` and `exit(EXIT_FAILURE)`.
  unfoldable pub set_option : Config → Opt → Option Config
  set_option g (Opt.n v) = some (record g { num_threads = to_int v })
  set_option g (Opt.s v) =
      some (record g { mem_size_per_thread_in_kb = to_int v; no_default_size = true })
  set_option g Opt.m = some (record g { mega = 1024; default_loop = g.default_loop / 100 })
  set_option g Opt.l = some (record g { hugepage_forced = 1 })
  set_option g (Opt.d v) = some (record g { stride = to_int v })
  set_option g (Opt.c v) = some (record g { test_case = to_int v })
  set_option g Opt.b = some (record g { cpubind = 1 })
  set_option g (Opt.q v) = some (record g { rand_ratio = mul (of_ℕ v) (litf 1 2) })
  set_option g Opt.other = none

  unfoldable pub set_options : Config → List Opt → Option Config
  set_options g [] = some g
  set_options g (o ∷ os) = elim (set_option g o) [ none ↦ none | some g' ↦ set_options g' os ]

  -- How the checks end: one of the five refusals, a division by a stride of 0, or what is used.
  pub data Start : Type 0 where
    too_small : Start
    bad_threads : Start
    bad_ratio : Start
    too_many_threads : Start
    sigfpe : Start
    ready : (g : Config) (n_bytes n_segs : ℕ) → Start

  -- `if (no_default_size && mega > 1) mem_size_per_thread_in_kb *= 1024L`
  unfoldable pub scale_size : Config → Config
  scale_size g =
      if g.no_default_size && int_gt g.mega 1
      then record g { mem_size_per_thread_in_kb = to_int (g.mem_size_per_thread_in_kb * 1024) }
      else g

  -- The checks on the scaled configuration, with `omp_get_num_threads()` threads.
  unfoldable pub check_config : ℕ → Config → Start
  check_config omp_num_threads g =
      if int_lt g.mem_size_per_thread_in_kb 4
      then too_small
      else if int_gt g.num_threads max_threads || int_lt g.num_threads 1
      then bad_threads
      else if ltf g.rand_ratio (lit 80 2) || ltf (lit 100 2) g.rand_ratio
      then bad_ratio
      else if ltb max_threads omp_num_threads
      then too_many_threads
      else if g.stride == 0
      then sigfpe
      else ready g (g.mem_size_per_thread_in_kb * 1024 * omp_num_threads)
          (g.mem_size_per_thread_in_kb * 1024 * omp_num_threads / of_int g.stride)

  -- `main` up to the allocation.
  unfoldable pub configure : ℕ → List Opt → Option Start
  configure omp_num_threads os = elim (set_options defaults os) [
    | none ↦ none
    | some g ↦ some (check_config omp_num_threads (scale_size g))
  ]
