-- ===== src/Stream/Program/Tests.antt =====
-- `main` of stream_dynamic.c over the natural numbers, for arrays of two elements and two
-- iterations.
use mbench.Prelude.{ℕ, ◌+◌, ◌*◌, ◌≡◌, refl, true, none, some, List, [], ◌∷◌}
use mbench.Floats.Tests.{naturals}
use mbench.Stream.Kernels.{main_arrays}
use mbench.Stream.Times.{summary}
use mbench.Stream.Tests.{orders, blank}
use mbench.Stream.Program.{
  Opt, System, main, alloc_memory, Timeval, set_option, set_options, defaults, bytes, iterations,
}

-- No huge pages, and a page for each call.
abbrev pages : ℕ → System
pages bytes = record {
  mmap = λ call size. none;
  posix_memalign = λ call size. some (4096 * (call + 1));
  stack = bytes;
}

abbrev options : List Opt
options = Opt.l ∷ Opt.r 2 ∷ Opt.n 2 ∷ []

chosen :
    set_options defaults options ≡ record { array_size = 2; ntimes = 2; hugepage_forced = true }
unfolding set_options set_option
chosen = refl

abbrev start : Timeval
start = record { tv_sec = 3; tv_usec = 999999 }

abbrev end : Timeval
end = record { tv_sec = 5; tv_usec = 1 }

-- A stack that holds the times of two iterations, and one that does not.
fits :
    main naturals (pages 64) orders (λ j k. 100 + k) 1000 start end options blank
    ≡ some (record {
      places = (4096, 8192, 12288);
      arrays = main_arrays naturals orders 2 blank;
      line = λ j. summary naturals 1000 (bytes 2 j) 2 (100 ∷ 101 ∷ []);
      rdelta = 1000002;
    })
unfolding main set_options set_option alloc_memory iterations
fits = refl

overflows : main naturals (pages 63) orders (λ j k. 100 + k) 1000 start end options blank ≡ none
unfolding main set_options set_option alloc_memory
overflows = refl
