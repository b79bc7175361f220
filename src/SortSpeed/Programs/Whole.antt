-- ===== src/SortSpeed/Programs/Whole.antt =====
-- u32_radix_sort_portable.cpp with the options that select its test of the radix sort.
use mbench.Prelude.{
  ℕ, zero, suc, ◌+◌, ◌*◌, ◌%◌, ◌^◌, ◌≤◌, ◌<◌, ◌≡◌, ◌⊎◌, refl, ap, ◌∙◌, Bool, true, false, Option,
  some, ◌>>=◌, >>=-eq-some, eq_of_some, List, [], ◌∷◌, Mem, if◌then◌else◌, is_negative, ◌||◌, ◌==◌,
  arith,
}
use mathlib.Core.Path.{subst}
use mbench.SortSpeed.Items.{SameItems, Ascending}
use mbench.SortSpeed.Windows.{cells}
use mbench.SortSpeed.Benchmark.{
  Opt, Config, System, defaults, bytes_of, set_option, set_options, selected, alloc_mem, fill_mt,
  store64, steps_of,
}
use mbench.SortSpeed.Programs.{portable_main, allocate, radix_cases, radix_case, extra_bytes}
use mbench.SortSpeed.Programs.Cases.{radix_case-Ascending}

bind-some {ℓ κ} :
    {A : Type ℓ} {B : Type κ} (m : Option A) (a : A) (f : A → Option B) {r : Option B}
    → m ≡ some a
    → f a ≡ r
    → (m >>= f) ≡ r
bind-some m a f e e' = rw e e'

-- `n_bytes` is the size of the array that `nElems` asks for.
abbrev Sized : Config → Type 0
Sized g = g.n_bytes ≡ bytes_of g.n_elems

set_option-Sized : (g g' : Config) (o : Opt) → Sized g → set_option g o ≡ some g' → Sized g'
unfolding set_option
set_option-Sized g g' (Opt.n v) sized e = subst Sized (eq_of_some e) refl
set_option-Sized g g' Opt.l sized e = subst Sized (eq_of_some e) sized
set_option-Sized g g' (Opt.c v) sized e = subst Sized (eq_of_some e) sized
set_option-Sized g g' Opt.other sized e = absurd (cc)

set_options-Sized :
    (g g' : Config) (opts : List Opt) → Sized g → set_options g opts ≡ some g' → Sized g'
unfolding set_options
set_options-Sized g g' [] sized e = subst Sized (eq_of_some e) sized
set_options-Sized g g' (o ∷ opts) sized e =
    let (h, first, rest) = >>=-eq-some (set_option g o) (λ h. set_options h opts) e in
    set_options-Sized h g' opts (set_option-Sized g h o sized first) rest

fill_mt-words :
    (mt_rand : ℕ → ℕ) (i pos steps : ℕ) (m : Mem)
    → ((a : ℕ) → m a < 2 ^ 32)
    → (a : ℕ) → fill_mt mt_rand i pos steps m a < 2 ^ 32
unfolding fill_mt
fill_mt-words mt_rand i pos zero m words a = words a
fill_mt-words mt_rand i pos (suc steps) m words a =
    fill_mt-words mt_rand (suc i) (pos + 2) steps (store64 m pos (mt_rand i % 2 ^ 32))
      (λ b. let w = words b in ground arith) a

module _ (sys : System) (std_qsort : ℕ → ℕ → Mem → Mem) (mt_rand : ℕ → ℕ → ℕ) (idx : ℕ)
    (opts : List Opt) (g : Config) (chosen : set_options (defaults 1000) opts ≡ some g)
    (third : g.test_case ≡ 2) (large : 1016 ≤ g.n_elems) (small : g.n_elems < 2 ^ 31)
    (ptr ptrd : ℕ) where
  only_third :
      (fill : ℕ → Mem → Mem) (m : Mem)
      → radix_cases sys std_qsort fill g ptr ptrd idx m
        ≡ radix_case ptr ptrd g.n_elems idx (fill 2 m)
  unfolding radix_cases
  only_third fill m =
      pick (selected g 0) (selected g 1) (selected g 2) (at 0 ∙ refl) (at 1 ∙ refl) (at 2 ∙ refl)
    where
      at : (k : ℕ) → selected g k ≡ (is_negative 2 || (2 == k))
      at k = ap (λ t. is_negative t || (t == k)) third

      pick :
          (b0 b1 b2 : Bool)
          → b0 ≡ false
          → b1 ≡ false
          → b2 ≡ true
          → (let m0 = if b0 then fill 0 m else m in
              let m1 = if b1 then std_qsort ptr g.n_elems (fill 1 m0) else m0 in
              if b2 then radix_case ptr ptrd g.n_elems idx (fill 2 m1) else m1)
            ≡ radix_case ptr ptrd g.n_elems idx (fill 2 m)
      pick true b1 b2 e0 e1 e2 = absurd (cc)
      pick false true b2 e0 e1 e2 = absurd (cc)
      pick false false false e0 e1 e2 = absurd (cc)
      pick false false true e0 e1 e2 = refl

  size_is : g.n_bytes ≡ 4 * g.n_elems
  size_is = let sized = set_options-Sized (defaults 1000) g opts refl chosen in omega (arith, sized)

  -- In a memory of 32-bit words, if the options are accepted, select the test case 2 and ask for
  -- 1016 elements or more, fewer than 2^31, and the regions of 4 bytes for each and of 20576 bytes
  -- more are found and do not overlap, and the uninitialised `idx` is an index into the second,
  -- then the program returns, and the elements that the array has once it is filled stand in it in
  -- ascending order.
  pub portable_main-Ascending :
      (m : Mem)
      → alloc_mem sys 0 (4 * g.n_elems) g.hugepage_forced ≡ some ptr
      → alloc_mem sys 1 (4 * g.n_elems + 20576) g.hugepage_forced ≡ some ptrd
      → (ptrd + 5144 + g.n_elems ≤ ptr) ⊎ (ptr + g.n_elems ≤ ptrd)
      → idx < 5144 + g.n_elems
      → ((a : ℕ) → m a < 2 ^ 32)
      → (m' : Mem) × (portable_main sys std_qsort mt_rand idx opts m ≡ some m')
        × SameItems
            (cells m' ptr g.n_elems)
            (cells (fill_mt (mt_rand 2) 0 ptr (steps_of g) m) ptr g.n_elems)
        × Ascending (λ x. x) (cells m' ptr g.n_elems)
  unfolding portable_main
  portable_main-Ascending m at_ptr at_ptrd apart inside words =
      let filled = fill_mt (mt_rand 2) 0 ptr (steps_of g) m in
      let more : (g.n_bytes + extra_bytes) % 2 ^ 64 ≡ 4 * g.n_elems + 20576 =
        omega (arith, size_is) in
      let places : allocate sys std_qsort g ((g.n_bytes + extra_bytes) % 2 ^ 64)
          ≡ some (ptr, ptrd) =
        bind-some (alloc_mem sys 0 g.n_bytes g.hugepage_forced) ptr _
          (ap (λ n. alloc_mem sys 0 n g.hugepage_forced) size_is ∙ at_ptr)
          (bind-some (alloc_mem sys 1 ((g.n_bytes + extra_bytes) % 2 ^ 64) g.hugepage_forced) ptrd _
            (ap (λ n. alloc_mem sys 1 n g.hugepage_forced) more ∙ at_ptrd) refl) in
      let (items, up) =
        radix_case-Ascending ptr ptrd g.n_elems idx filled apart large small inside
          (fill_mt-words (mt_rand 2) 0 ptr (steps_of g) m words) in
      (
        radix_case ptr ptrd g.n_elems idx filled,
        bind-some (set_options (defaults 1000) opts) g _ chosen (
            bind-some (allocate sys std_qsort g ((g.n_bytes + extra_bytes) % 2 ^ 64)) (ptr, ptrd) _
              places (ap some (only_third (λ k. fill_mt (mt_rand k) 0 ptr (steps_of g)) m))),
        items,
        up,
      )
