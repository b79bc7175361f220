-- ===== src/MbmStream/Tests.antt =====
-- mbm_stream_dynamic.c in whole numbers, for two elements and times of 30 to 39 microseconds.
use mbench.Prelude.{ℕ, ◌+◌, ◌*◌, ◌<◌, ◌≤◌, ◌≡◌, refl, none, some, [], ◌∷◌}
use mbench.Floats.Tests.{naturals}
use mbench.Stream.Program.{iterations}
use mbench.Stream.Kernels.{main_arrays}
use mbench.Stream.Tests.{orders, blank}
use mbench.Stream.Times.Tests.{micro, AnyNumber, numbers}
use mbench.Stream.Times.Extremes.{OneOf, Between}
use mbench.MbmStream.{
  Opt, System, main, bytes, summary, ntimes, alloc_memory, set_option, set_options,
}
use mbench.MbmStream.Reports.{sum_from, summary_skips_first}

-- No huge pages, and a page for each call.
abbrev pages : System
pages = record { mmap = λ call size. none; posix_memalign = λ call size. some (4096 * (call + 1)) }

two_elements :
    main naturals pages orders (λ j k. 30 + k) 1000 (Opt.n 7 ∷ Opt.l ∷ Opt.n 2 ∷ []) blank
    ≡ some (record {
      size = 2;
      places = (4096, 8192, 12288);
      arrays = main_arrays naturals orders 10 blank;
      line = λ j. summary naturals 1000 (bytes 2 j) (iterations (λ k. 30 + k) 0 10);
    })
unfolding main alloc_memory set_options set_option
two_elements = refl

abbrev thirties : ℕ → ℕ
thirties k = 30 + k

summary_skips_first_example :
    ((summary micro 1000 640 (iterations thirties 0 ntimes)).avg
      ≡ micro.div (sum_from micro AnyNumber numbers thirties 1 9) 9)
    × ((summary micro 1000 640 (iterations thirties 0 ntimes)).avg_rate
        ≡ micro.div 640 (micro.div (sum_from micro AnyNumber numbers thirties 1 9) 9))
    × OneOf micro AnyNumber numbers
        (summary micro 1000 640 (iterations thirties 0 ntimes)).min_time
        1000
        (iterations thirties 1 9)
    × OneOf micro AnyNumber numbers
        (summary micro 1000 640 (iterations thirties 0 ntimes)).max_time
        0
        (iterations thirties 1 9)
    × ((k : ℕ)
        → 1 ≤ k
        → k < 10
        → Between micro AnyNumber numbers
            (summary micro 1000 640 (iterations thirties 0 ntimes)).min_time
            (summary micro 1000 640 (iterations thirties 0 ntimes)).max_time
            (thirties k))
summary_skips_first_example =
    summary_skips_first micro AnyNumber numbers 1000 640 thirties tt tt (λ k. tt)
