-- ===== src/MemLat/Parallel/Tests.antt =====
-- Two threads that clear 64 bytes at 0x1000, the second thread first.
use mbench.Prelude.{
  ℕ, zero, suc, ◌+◌, ◌≤◌, ◌<◌, ◌≡◌, refl, ◌⊎◌, inl, inr, [], ◌∷◌, arith, Occurs, Mem,
}
use mbench.MemLat.Parallel.{parallel_memset}
use mbench.MemLat.Parallel.Clears.{parallel_memset-zero}

abbrev dirty : Mem
dirty a = suc a

every : (i : ℕ) → i < 2 → Occurs i (1 ∷ 0 ∷ [])
every zero lt = inr (inl refl)
every (suc zero) lt = inl refl
every (suc (suc i)) lt = absurd (omega arith)

parallel_memset-zero_example :
    (0x1000 ≤ 0x1028
      → 0x1028 < 0x1000 + 64
      → parallel_memset 0x1000 64 2 (1 ∷ 0 ∷ []) dirty 0x1028 ≡ 0)
    × ((0x1028 < 0x1000) ⊎ (0x1000 + 64 ≤ 0x1028)
        → parallel_memset 0x1000 64 2 (1 ∷ 0 ∷ []) dirty 0x1028 ≡ dirty 0x1028)
parallel_memset-zero_example =
    parallel_memset-zero 0x1000 64 2 (1 ∷ 0 ∷ []) dirty (omega arith) (omega arith) every
      (omega arith, (omega arith, tt)) 0x1028
