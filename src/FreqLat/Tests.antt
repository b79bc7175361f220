-- ===== src/FreqLat/Tests.antt =====
-- Buffers of 64 bytes at 0x1000, and runs of `main` with one at 0x10000.
use mbench.Prelude.{ℕ, suc, ◌/◌, ◌%◌, ◌≡◌, ◌↔◌, refl, some, none, [], ◌∷◌, arith, Mem, chase}
use mbench.Ring.{Period}
use mbench.MemLat.Setup.Invariant.{Cell}
use mbench.FreqLat.{
  build, link, s, d, other, main, set_options, checked, measure_rdlat_user, usage, too_small,
  bad_stride, no_memory,
}
use mbench.FreqLat.Backwards.{build-Period}

abbrev dirty : Mem
dirty a = suc a

-- Four segments, from the first to the last and down.
four : (build 0x1000 64 16 dirty).0 0x1000 ≡ 0x1030
unfolding build link
four = refl

-- With a stride of 24 bytes the second segment leads to the first, and the first into the last
-- 24 bytes, where no segment starts.
odd :
    ((build 0x1000 64 24 dirty).0 0x1018 ≡ 0x1000) × ((build 0x1000 64 24 dirty).0 0x1000 ≡ 0x1028)
unfolding build link
odd = (refl, refl)

no_option : main (s 16 ∷ other ∷ []) (some 0x10000) dirty ≡ usage
unfolding main set_options
no_option = refl

few_bytes : main (s 3 ∷ []) (some 0x10000) dirty ≡ too_small
unfolding main set_options checked
few_bytes = refl

no_stride : main (d 0 ∷ []) (some 0x10000) dirty ≡ bad_stride
unfolding main set_options checked measure_rdlat_user
no_stride = refl

not_there : main [] none dirty ≡ no_memory
unfolding main set_options checked measure_rdlat_user
not_there = refl

build-Period_example :
    ((build 0x1000 64 16 dirty).1 ≡ 0x1000)
    × (64 % 16 ≡ 0
        → Period (build 0x1000 64 16 dirty).0 0x1000 (64 / 16)
          × ((k : ℕ) → Cell 0x1000 64 16 (chase (build 0x1000 64 16 dirty).0 k 0x1000)))
    × (Cell 0x1000 64 16 ((build 0x1000 64 16 dirty).0 0x1000) ↔ (64 % 16 ≡ 0))
build-Period_example = build-Period 0x1000 64 16 dirty (omega arith) (omega arith) (omega arith)
