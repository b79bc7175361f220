-- ===== src/Lib.antt =====
-- The micro benchmarks of this repository: models of their C code and proofs about them. The
-- programs share no code; most of them link the segments of a buffer into a ring of pointers and
-- walk along it.
--
-- Prelude: Boolean tests on natural numbers, lists, memory as a function of addresses, sums.
-- Floats: the floating-point operations that the programs use, as an interface without laws.
-- Ring: rings of pointers, which every latency test walks along.
-- MemLat: mem_lat.c. Setup is `setup_rnd`, Loops are `measure_rnd_read` and `measure_rnd_fill`,
--   Options is the option loop of `main` and its checks, Parallel has `parallel_memset` and the
--   fills that run together, and Phases has `simple_test`, `parallel_test`, `modify_read` and
--   the rest of `main`.
-- CoreLat: core_lat/no_lock.c and core_lat/cas_lock.c, the token that the threads of `measure`
--   hand round, as interleavings of their shared accesses.
-- Stream: stream_dynamic.c, the kernels (Kernels), the replay of `checkSTREAMresults` (Replay) and
--   its verdict (Check), the times, with `checktick` (Times), and the options, `alloc_memory` and
--   `main` (Program).
-- CacheMiss: ParallelCacheMiss.c, its `setup_rnd` (Inside), the 16 pointers of its
--   `measure_rnd_read` (Walks), and its `alloc_memory`, options and `main` (Options).
-- FreqLat: freqLat.c, the ring that leads from the end of the buffer to its start.
-- Zoneinfo: getAvaiFreeMem.c, the parser of /proc/zoneinfo, on what `fgets` returns; Scan has
--   `strstr` and `sscanf` as far as it uses them; a number out of range is the nearest `long long`,
--   as in glibc.
-- Smaps: `parse` of tlbShootDownBench.c, which adds up the fields of /proc/self/smaps.
-- SortSpeed: the sorts of sortSpeed/. Radix is `radix_sort` of u32_radix_sort_portable.cpp and
--   u32_radix_sort_demo.cpp, Quick is `qs_recsv` of sortSpeed.cpp, Improved the one of
--   sortSpeed_improved_v1.cpp, Avx2 is `avx2_remain_sorts` and `my_qsort_AVX2`, and Povit is
--   `measurePovit1`; Items, Windows, Buckets, Joins and Bags are the descriptions that they are
--   compared with; Benchmark has the options, `allocMem` and the loops that fill the array, and
--   Programs the `main` of each.
-- MbmStream: mbm_stream_dynamic.c, whose kernels are those of Stream.
-- DetectAlive: detectAlive.c, `worker` as steps on its counts of connections, of which
--   those that fail can leave a socket open (Counts), and the addresses of `do_connect` (Targets).
-- SimpleMemLat: simpleMemLatChecker.c, whose loop is that of mem_lat.c with another test.
--
-- A definition has the name of the C function, macro or variable that it models. Memory maps an
-- address to the 64-bit word there, and a store changes that word alone. The words of segments
-- that are 8 bytes apart or more do not overlap, so that the theorems about rings ask for a stride
-- of 8 or more, and of 16 or more where the fills write the word beside a link; the programs
-- accept less. Addresses are natural numbers, since a pointer into an object does not wrap, but
-- for freqLat.c, which computes one from a count that may be 0; counters wrap at 2^64. An `int` is
-- its 32-bit pattern. What /dev/urandom returns is a list of numbers, at whose end the read fails,
-- so that the loop of `setup_rnd` is a recursion on that list and needs no other bound; `random`
-- and `rdrand` give a list of the numbers drawn so far, at whose end the loop still runs. The test
-- with `rand_ratio`, which is in floating point, is a parameter. The iterations of an `omp
-- parallel for` run in the order of a list, and so do the threads of a parallel region; where
-- threads write words that others read, the list has their single steps. Timing, printing and the
-- calls of the system are left out where nothing else depends on them. The memory of the sorts has
-- 32-bit words. A scan or a recursion of `qs_recsv` and of `my_qsort_AVX2` has fuel; for
-- `qs_recsv` one unit more than there are elements is enough. `qsort_AVX2`, whose source here is
-- the assembly that a compiler has written and whose result is an `int`, `std::qsort`, the
-- allocators and the generators are parameters.
--
-- Not modelled: cycleCountingLSU.c and memOpsLat.c, whose work is calls of the system and inline
-- assembly under a clock; the loops of tlbShootDownBench.c that touch pages; `measurePovit2`,
-- which nothing calls; the smaller probes, which have no state; and the programs in C++ that
-- format results or call a vendor's library.
pub mod Prelude
pub mod Ring
pub mod MemLat
pub mod CoreLat
pub mod Floats
pub mod Stream
pub mod CacheMiss
pub mod FreqLat
pub mod SimpleMemLat
pub mod Zoneinfo
pub mod Smaps
pub mod SortSpeed
pub mod MbmStream
pub mod DetectAlive
