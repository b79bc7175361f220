-- ===== src/SimpleMemLat/Tests.antt =====
-- Two segments of 2 KB at 0x10000, the second of which is picked twice.
use mbench.Prelude.{ℕ, suc, ◌*◌, ◌%◌, ◌^◌, ◌≤◌, ◌≡◌, refl, Bool, some, [], ◌∷◌, arith, ltb, Mem}
use mbench.Floats.Tests.{hundredths}
use mbench.MemLat.Setup.{Returned}
use mbench.MemLat.Setup
use mbench.SimpleMemLat.{
  Machine, Config, Run, measured, usage, too_small, bad_ratio, linking, s, q, d, other, defaults,
  set_option, set_options, measure_rdlat_user, checked, main,
}
use mbench.SimpleMemLat.Measures.{Sound, checked_links}

abbrev past : ℕ → ℕ → ℕ → Bool
past ratio n_segs n_done = ltb (ratio * n_segs) (n_done * 100)

abbrev dirty : Mem
dirty a = suc a

abbrev mach : Machine
mach = record { memalign = some 0x10000; mem = dirty; rdrand = 1 ∷ 1 ∷ [] }

no_option : main hundredths past (s 4 ∷ other ∷ []) mach ≡ usage
unfolding main set_options set_option defaults
no_option = refl

few_bytes : main hundredths past (s 3 ∷ []) mach ≡ too_small
unfolding main set_options set_option checked defaults
few_bytes = refl

low_ratio : main hundredths past (q 79 ∷ []) mach ≡ bad_ratio
unfolding main set_options set_option checked defaults
low_ratio = refl

unfinished : main hundredths past (d 1024 ∷ []) mach ≡ linking
unfolding main set_options set_option checked defaults measure_rdlat_user Setup.setup_rnd
    Setup.first_round Setup.fill Setup.attempt
unfinished = refl

abbrev two_segs : Config hundredths past
two_segs = record { mem_size_per_thread_in_kb = 4; scale = 1; stride = 2048; rand_ratio = 99 }

abbrev linked : Run → Returned
linked (measured ptr n_bytes r paddr) = r
linked other_end = record { mem = dirty; debug_ret = (0, 0, 0, 0) }

abbrev value : Run → ℕ
value (measured ptr n_bytes r paddr) = paddr
value other_end = 0

abbrev run : Run
run = checked hundredths past two_segs mach

measures : checked hundredths past two_segs mach ≡ measured 0x10000 4096 (linked run) (value run)
unfolding checked measure_rdlat_user Setup.setup_rnd Setup.first_round Setup.fill Setup.attempt
    Setup.close
measures = refl

checked_links_example :
    Sound 4096 2048 0x10000 (linked run) (value run)
    × (mach.memalign ≡ some 0x10000)
    × (4 ≤ 4 * 1 % 2 ^ 64)
    × (4096 ≡ 4 * 1 % 2 ^ 64 * 1024 % 2 ^ 64)
checked_links_example =
    checked_links hundredths past two_segs mach 0x10000 4096 _ _ (omega arith) (omega arith)
      (omega arith) measures
