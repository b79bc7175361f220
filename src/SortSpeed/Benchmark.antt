-- ===== src/SortSpeed/Benchmark.antt =====
-- What the sorting programs share around their sorts: the options of `main`, `allocMem`, and the
-- loops that fill the array. A 64-bit word is two words of the memory, the lower half first.
use mbench.Prelude.{
  ℕ, zero, suc, ◌+◌, ◌-◌, ◌*◌, ◌/◌, ◌%◌, ◌^◌, Bool, true, false, ◌||◌, Option, none, some, ◌>>=◌,
  List, [], ◌∷◌, Mem, store, if◌then◌else◌, ltb, ◌==◌, is_negative, to_int,
}

-- What `getopt` returns, with the number that `strtoul` reads.
pub data Opt : Type 0 where
  n : ℕ → Opt
  l : Opt
  c : ℕ → Opt
  other : Opt

-- The variables of `main` that the options set; `test_case` is a 32-bit pattern.
pub record Config : Type 0 where
  pub n_elems : ℕ
  pub n_bytes : ℕ
  pub test_case : ℕ
  pub hugepage_forced : Bool

abbrev pub min_n_elem : ℕ
min_n_elem = 16

-- `TYPE_LEN * nElems`.
abbrev pub bytes_of : ℕ → ℕ
bytes_of n_elems = 4 * n_elems % 2 ^ 64

-- `size` is the macro `N`.
abbrev pub defaults : ℕ → Config
defaults size = record {
  n_elems = size;
  n_bytes = bytes_of size;
  test_case = 2 ^ 32 - 1;
  hugepage_forced = false;
}

-- One turn of the option loop; `none` is `exit`.
unfoldable pub set_option : Config → Opt → Option Config
set_option g (Opt.n v) =
    let n_elems = if ltb v min_n_elem then min_n_elem else v in
    some (record g { n_elems = n_elems; n_bytes = bytes_of n_elems })
set_option g Opt.l = some (record g { hugepage_forced = true })
set_option g (Opt.c v) = some (record g { test_case = to_int v })
set_option g Opt.other = none

unfoldable pub set_options : Config → List Opt → Option Config
unfolding set_option
set_options g [] = some g
set_options g (o ∷ opts) = set_option g o >>= λ g'. set_options g' opts

-- `test_case < 0 || test_case == k`.
abbrev pub selected : Config → ℕ → Bool
selected g k = is_negative g.test_case || (g.test_case == k)

-- Where `mmap` and `posix_memalign` put a region of a number of bytes, in words, if they do, at the
-- call with a number.
pub record System : Type 0 where
  pub mmap : ℕ → ℕ → Option ℕ
  pub posix_memalign : ℕ → ℕ → Option ℕ

abbrev pub def_huge_page_size : ℕ
def_huge_page_size = 2097152

-- `none` is `exit`.
unfoldable pub alloc_mem : System → ℕ → ℕ → Bool → Option ℕ
alloc_mem sys call n_bytes true =
    let size = if ltb n_bytes def_huge_page_size then def_huge_page_size else n_bytes in
    elim (sys.mmap call size) [ some ptr ↦ some ptr | none ↦ sys.posix_memalign call n_bytes ]
alloc_mem sys call n_bytes false = sys.posix_memalign call n_bytes

-- `*pos = v` for an `unsigned long long *pos`.
abbrev pub store64 : Mem → ℕ → ℕ → Mem
store64 m pos v = store (store m pos (v % 2 ^ 32)) (pos + 1) (v / 2 ^ 32 % 2 ^ 32)

-- `*pos = mt_rand(); pos++`, `steps` times; `mt_rand` gives numbers of 32 bits.
unfoldable pub fill_mt : (ℕ → ℕ) → ℕ → ℕ → ℕ → Mem → Mem
fill_mt mt_rand i pos zero m = m
fill_mt mt_rand i pos (suc steps) m =
    fill_mt mt_rand (suc i) (pos + 2) steps (store64 m pos (mt_rand i % 2 ^ 32))

-- `__builtin_ia32_rdrand64_step(pos); pos++`, `steps` times. Where `rdrand` has no number it gives
-- 0.
unfoldable pub fill_rdrand : (ℕ → Option ℕ) → ℕ → ℕ → ℕ → Mem → Mem
fill_rdrand rdrand i pos zero m = m
fill_rdrand rdrand i pos (suc steps) m =
    let drawn : ℕ = elim (rdrand i) [ some r ↦ r | none ↦ 0 ] in
    fill_rdrand rdrand (suc i) (pos + 2) steps (store64 m pos drawn)

-- `memset(ptrd, 0, ...)` of `n` words.
unfoldable pub clear : ℕ → ℕ → Mem → Mem
clear a zero m = m
clear a (suc left) m = clear (suc a) left (store m a 0)

-- `n_bytes / sizeof(unsigned long long)`.
abbrev pub steps_of : Config → ℕ
steps_of g = g.n_bytes / 8
