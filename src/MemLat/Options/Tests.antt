-- ===== src/MemLat/Options/Tests.antt =====
-- Command lines of mem_lat.c, with four threads.
use mbench.Prelude.{true, ℕ, ◌+◌, ◌*◌, ◌/◌, ◌^◌, ◌<◌, ◌≡◌, refl, some, none, [], ◌∷◌, of_int}
use mbench.Floats.Tests.{hundredths}
use mbench.MemLat.Options.{
  n, s, m, d, q, other, Config, too_small, bad_threads, bad_ratio, sigfpe, ready, defaults,
  set_option, set_options, scale_size, check_config, configure,
}
use mbench.MemLat.Options.Accepts.{Accepted, check_config_accepts}

usage_error : configure hundredths 4 (n 2 ∷ other ∷ []) ≡ none
unfolding configure set_options set_option
usage_error = refl

no_memory : configure hundredths 4 (s 3 ∷ []) ≡ some (too_small)
unfolding configure set_options set_option scale_size check_config defaults
no_memory = refl

no_stride : configure hundredths 4 (d 0 ∷ []) ≡ some (sigfpe)
unfolding configure set_options set_option scale_size check_config defaults
no_stride = refl

low_ratio : configure hundredths 4 (q 79 ∷ []) ≡ some (bad_ratio)
unfolding configure set_options set_option scale_size check_config defaults
low_ratio = refl

too_many : configure hundredths 4 (n 257 ∷ []) ≡ some (bad_threads)
unfolding configure set_options set_option scale_size check_config defaults
too_many = refl

-- `-s 2 -m -m` takes 2 MB a thread, and no round of the measured loops.
abbrev two_m : Config hundredths
two_m = record (defaults hundredths) {
  mem_size_per_thread_in_kb = 2048;
  mega = 1024;
  default_loop = 0;
  no_default_size = true;
}

twice_mega : configure hundredths 4 (s 2 ∷ m ∷ m ∷ []) ≡ some (ready two_m 8388608 32768)
unfolding configure set_options set_option scale_size check_config defaults
twice_mega = refl

check_config_accepts_example :
    (Accepted hundredths 4 (defaults hundredths)
      → (n_bytes : ℕ) × (n_segs : ℕ) × (check_config hundredths 4 (defaults hundredths)
          ≡ ready (defaults hundredths) n_bytes n_segs))
    × ((g' : Config hundredths) (n_bytes n_segs : ℕ)
        → check_config hundredths 4 (defaults hundredths) ≡ ready g' n_bytes n_segs
        → Accepted hundredths 4 (defaults hundredths)
          × (g' ≡ defaults hundredths)
          × (n_bytes ≡ 4 * ((defaults hundredths).mem_size_per_thread_in_kb * 1024))
          × (n_bytes < 2 ^ 49 + 1)
          × (n_segs ≡ n_bytes / of_int (defaults hundredths).stride))
check_config_accepts_example = check_config_accepts hundredths 4 (defaults hundredths)
