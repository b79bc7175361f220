-- ===== src/MbmStream.antt =====
-- mbm_stream_dynamic.c, a variant of stream_dynamic.c: its options, `alloc_memory`, the summary,
-- which leaves the first iteration out, and `main`. The kernels are those of stream_dynamic.c.
pub mod Reports
mod Tests
use mbench.Prelude.{
  ℕ, ◌-◌, ◌*◌, ◌%◌, ◌^◌, Bool, true, false, Option, none, some, ◌>>=◌, List, [], ◌∷◌, ltb,
  if◌then◌else◌,
}
use mbench.Floats.{Floats}
use mbench.Stream.Kernels.{Arrays, main_arrays}
use mbench.Stream.Program.{iterations}
use mbench.Stream.Times.{Summary, initial, add_time, add_times}

-- What `getopt` returns, with the number that `strtoull` reads.
pub data Opt : Type 0 where
  n : ℕ → Opt
  l : Opt
  other : Opt

pub record Config : Type 0 where
  pub array_size : ℕ
  pub hugepage_forced : Bool

abbrev pub defaults : Config
defaults = record { array_size = 80000000; hugepage_forced = false }

-- One turn of the option loop; an unknown option has no effect.
unfoldable pub set_option : Config → Opt → Config
set_option g (Opt.n v) = record g { array_size = v }
set_option g Opt.l = record g { hugepage_forced = true }
set_option g Opt.other = g

unfoldable pub set_options : Config → List Opt → Config
unfolding set_option
set_options g [] = g
set_options g (o ∷ opts) = set_options (set_option g o) opts

-- `NTIMES`, which no option sets.
abbrev pub ntimes : ℕ
ntimes = 10

-- `sizeof(STREAM_TYPE) * STREAM_ARRAY_SIZE`.
abbrev pub array_bytes : ℕ → ℕ
array_bytes size = 8 * size % 2 ^ 64

-- `bytes[j]`, before the conversion to `double`.
abbrev pub bytes : ℕ → ℕ → ℕ
bytes size j = (if ltb j 2 then 2 else 3) * 8 * size % 2 ^ 64

-- Where `mmap` and `posix_memalign` put a region of a number of bytes, if they do, at the call
-- with a number.
pub record System : Type 0 where
  pub mmap : ℕ → ℕ → Option ℕ
  pub posix_memalign : ℕ → ℕ → Option ℕ

abbrev pub def_huge_page_size : ℕ
def_huge_page_size = 2097152

-- `none` is `exit`.
unfoldable pub alloc_memory : System → ℕ → Bool → ℕ → Option ℕ
alloc_memory sys call true n_bytes =
    let size = if ltb n_bytes def_huge_page_size then def_huge_page_size else n_bytes in
    elim (sys.mmap call size) [ some ptr ↦ some ptr | none ↦ sys.posix_memalign call n_bytes ]
alloc_memory sys call false n_bytes = sys.posix_memalign call n_bytes

module _ (F : Floats) where
  open F use {R, of_ℕ, lit, mul, div}

  -- The loop of the summary for one kernel: `times[j][k]` for `k` from 1 on.
  unfoldable pub skip_first : Summary F → List R → Summary F
  unfolding add_times
  skip_first t [] = t
  skip_first t (first ∷ times) = add_times F t times

  -- What is printed for one kernel: the average rate and the three times.
  pub record Line : Type 0 where
    pub avg_rate : R
    pub avg : R
    pub min_time : R
    pub max_time : R

  unfoldable pub summary : R → ℕ → List R → Line
  unfolding skip_first
  summary flt_max n_bytes times =
      let t = skip_first (initial F flt_max) times in
      let avg = div t.avgtime (of_ℕ (ntimes - 1)) in
      record {
        avg_rate = div (mul (lit 1 6) (of_ℕ n_bytes)) avg;
        avg = avg;
        min_time = t.mintime;
        max_time = t.maxtime;
      }

  -- What `main` leaves: the arrays and their places, and a line for each kernel.
  pub record Run : Type 0 where
    pub size : ℕ
    pub places : ℕ × ℕ × ℕ
    pub arrays : Arrays F
    pub line : ℕ → Line

  -- `orders` gives the order of each parallel loop, `times j k` the difference of the clock's
  -- readings around kernel `j` in iteration `k`, and `s` is what the memory held. `none` is `exit`.
  unfoldable pub main : System → (ℕ → List ℕ) → (ℕ → ℕ → R) → R → List Opt → Arrays F → Option Run
  unfolding set_options alloc_memory summary main_arrays iterations
  main sys orders times flt_max opts s =
      let g = set_options defaults opts in
      let size = array_bytes g.array_size in
      alloc_memory sys 0 g.hugepage_forced size >>= λ a.
      alloc_memory sys 1 g.hugepage_forced size >>= λ b.
      alloc_memory sys 2 g.hugepage_forced size >>= λ c. some (record {
        size = g.array_size;
        places = (a, b, c);
        arrays = main_arrays F orders ntimes s;
        line = λ j. summary flt_max (bytes g.array_size j) (iterations (times j) 0 ntimes);
      })
