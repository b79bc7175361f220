-- ===== src/Stream/Program.antt =====
-- The rest of stream_dynamic.c: its options, `alloc_memory`, the user time and `main`.
mod Tests
use mbench.Prelude.{
  ℕ, zero, suc, ◌+◌, ◌-◌, ◌*◌, ◌%◌, ◌^◌, Bool, true, false, Option, none, some, ◌>>=◌, List, [],
  ◌∷◌, ltb, leb, ◌&&◌, if◌then◌else◌,
}
use mbench.Floats.{Floats}
use mbench.Stream.Kernels.{Arrays, main_arrays}
use mbench.Stream.Times.{Line, summary}

-- What `getopt` returns, with the number that `strtoull` reads.
pub data Opt : Type 0 where
  n : ℕ → Opt
  l : Opt
  r : ℕ → Opt
  other : Opt

pub record Config : Type 0 where
  pub array_size : ℕ
  pub ntimes : ℕ
  pub hugepage_forced : Bool

abbrev pub defaults : Config
defaults = record { array_size = 80000000; ntimes = 10; hugepage_forced = false }

-- One turn of the option loop; an unknown option has no effect.
unfoldable pub set_option : Config → Opt → Config
set_option g (Opt.n v) = record g { array_size = v }
set_option g Opt.l = record g { hugepage_forced = true }
set_option g (Opt.r v) = record g { ntimes = v }
set_option g Opt.other = g

unfoldable pub set_options : Config → List Opt → Config
unfolding set_option
set_options g [] = g
set_options g (o ∷ opts) = set_options (set_option g o) opts

-- `sizeof(STREAM_TYPE) * STREAM_ARRAY_SIZE`.
abbrev pub array_bytes : ℕ → ℕ
array_bytes size = 8 * size % 2 ^ 64

-- `bytes[j]`, before the conversion to `double`.
abbrev pub bytes : ℕ → ℕ → ℕ
bytes size j = (if ltb j 2 then 2 else 3) * 8 * size % 2 ^ 64

-- Where `mmap` and `posix_memalign` put a region of a number of bytes, if they do, at the call
-- with a number.
pub record System : Type 0 where
  pub mmap : ℕ → ℕ → Option ℕ
  pub posix_memalign : ℕ → ℕ → Option ℕ
  pub stack : ℕ  -- the bytes that the stack has left for `times[4][NTIMES]`

abbrev pub def_huge_page_size : ℕ
def_huge_page_size = 2097152

-- `none` is `exit`.
unfoldable pub alloc_memory : System → ℕ → Bool → ℕ → Option ℕ
alloc_memory sys call true n_bytes =
    let size = if ltb n_bytes def_huge_page_size then def_huge_page_size else n_bytes in
    elim (sys.mmap call size) [ some ptr ↦ some ptr | none ↦ sys.posix_memalign call n_bytes ]
alloc_memory sys call false n_bytes = sys.posix_memalign call n_bytes

-- A `struct timeval`, and its microseconds.
pub record Timeval : Type 0 where
  pub tv_sec : ℕ
  pub tv_usec : ℕ

abbrev pub time_us_timeval : Timeval → ℕ
time_us_timeval tv = (tv.tv_sec * 1000000 + tv.tv_usec) % 2 ^ 64

-- `rdelta`, the user time between two calls of `getrusage`.
abbrev pub user_time : Timeval → Timeval → ℕ
user_time r1 r2 = (time_us_timeval r2 + (2 ^ 64 - time_us_timeval r1)) % 2 ^ 64

-- What is measured in the iterations from `k` on, `count` times.
unfoldable pub iterations {ℓ} : {A : Type ℓ} → (ℕ → A) → ℕ → ℕ → List A
iterations f k zero = []
iterations f k (suc count) = f k ∷ iterations f (suc k) count

module _ (F : Floats) where
  open F use {R}

  -- What `main` leaves: the arrays and their places, a line for each kernel, and the user time.
  pub record Run : Type 0 where
    pub places : ℕ × ℕ × ℕ
    pub arrays : Arrays F
    pub line : ℕ → Line F
    pub rdelta : ℕ

  -- `orders` gives the order of each parallel loop, `times j k` the difference of the clock's
  -- readings around kernel `j` in iteration `k`, `s` is what the memory held, and `r1` and `r2` are
  -- the user times that `getrusage` finds. `none` is `exit`, or that `times` does not fit the stack
  -- or `int k` the loop up to `NTIMES`.
  unfoldable pub main :
      System
      → (ℕ → List ℕ)
      → (ℕ → ℕ → R)
      → R
      → Timeval
      → Timeval
      → List Opt
      → Arrays F
      → Option (Run)
  unfolding set_options alloc_memory summary main_arrays iterations
  main sys orders times flt_max r1 r2 opts s =
      let g = set_options defaults opts in
      let size = array_bytes g.array_size in
      let run = alloc_memory sys 0 g.hugepage_forced size >>= λ a.
      alloc_memory sys 1 g.hugepage_forced size >>= λ b.
      alloc_memory sys 2 g.hugepage_forced size >>= λ c. some (record {
        places = (a, b, c);
        arrays = main_arrays F orders g.ntimes s;
        line = λ j.
            summary F flt_max (bytes g.array_size j) g.ntimes (iterations (times j) 0 g.ntimes);
        rdelta = user_time r1 r2;
      }) in
      if leb (32 * g.ntimes) sys.stack && ltb g.ntimes (2 ^ 31) then run else none
