-- ===== src/SortSpeed/Improved/Short.antt =====
-- Three elements that `qs_recsv` of sortSpeed_improved_v1.cpp leaves out of order.
use mbench.Prelude.{ℕ, suc, ◌+◌, ◌-◌, ◌≤◌, ◌<◌, ◌≡◌, ◌≢◌, ap, ◌∙◌, some, Mem, arith}
use mbench.SortSpeed.Quick.{Bounds, scalar_partition_epi32, scan_up, scan_down, swap, exchange}
use mbench.SortSpeed.Quick.Scans.{
  exchange_swaps, exchange_stops, swap-other, swap_first, swap_second,
}
use mbench.SortSpeed.Improved.{qs_recsv}

scan_up_stays :
    (fuel : ℕ) (m : Mem) (pivot a : ℕ) → pivot ≤ m a → scan_up (suc fuel) m pivot a ≡ some a
unfolding scan_up
scan_up_stays fuel m pivot a le = ground arith

scan_down_stays :
    (fuel : ℕ) (m : Mem) (pivot a : ℕ) → m a ≤ pivot → scan_down (suc fuel) m pivot a ≡ some a
unfolding scan_down
scan_down_stays fuel m pivot a le = ground arith

scan_down_moves :
    (fuel : ℕ) (m : Mem) (pivot a : ℕ)
    → pivot < m a
    → scan_down (suc fuel) m pivot a ≡ scan_down fuel m pivot (a - 1)
unfolding scan_down
scan_down_moves fuel m pivot a lt = ground arith

turn :
    (rounds steps pivot right left r l : ℕ) (m : Mem)
    → right ≤ left
    → scan_up steps m pivot right ≡ some r
    → scan_down steps m pivot left ≡ some l
    → scalar_partition_epi32
        (suc rounds)
        steps
        pivot
        (record { right = right; left = left; mem = m })
      ≡ scalar_partition_epi32 rounds steps pivot (exchange r l m)
unfolding scalar_partition_epi32
turn rounds steps pivot right left r l m on e e' = rw (e, e') (ground arith)

done :
    (rounds steps pivot right left : ℕ) (m : Mem)
    → left < right
    → scalar_partition_epi32
        (suc rounds)
        steps
        pivot
        (record { right = right; left = left; mem = m })
      ≡ some (record { right = right; left = left; mem = m })
unfolding scalar_partition_epi32
done rounds steps pivot right left m lt = ground arith

abbrev bounds : ℕ → ℕ → Mem → Bounds
bounds right left m = record { right = right; left = left; mem = m }

-- A call whose partition leaves parts of one element or none makes no other call.
no_parts :
    (fuel p n right left : ℕ) (m m' : Mem)
    → scalar_partition_epi32 (suc fuel) (suc fuel) (m p) (bounds p (p + n - 1) m)
      ≡ some (bounds right left m')
    → left ≤ p
    → p + n - 1 ≤ right
    → qs_recsv (suc fuel) m p n ≡ some m'
unfolding qs_recsv
no_parts fuel p n right left m m' e le le' = rw e (ground arith)

upper_part :
    (fuel p n right left : ℕ) (m m' : Mem)
    → scalar_partition_epi32 (suc fuel) (suc fuel) (m p) (bounds p (p + n - 1) m)
      ≡ some (bounds right left m')
    → left ≤ p
    → right < p + n - 1
    → qs_recsv (suc fuel) m p n ≡ qs_recsv fuel m' right (p + n - 1 - right)
unfolding qs_recsv
upper_part fuel p n right left m m' e le lt = rw e (ground arith)

-- A call for one element swaps it with itself.
one_element : (fuel p : ℕ) (m : Mem) → 0 < p → qs_recsv (suc (suc fuel)) m p 1 ≡ some (swap p p m)
one_element fuel p m somewhere =
    let steps = suc (suc fuel) in
    let at_p : p + 1 - 1 ≡ p = omega arith in
    no_parts (suc fuel) p 1 (p + 1) (p - 1) m (swap p p m)
      (turn (suc fuel) steps (m p) p (p + 1 - 1) p p m (omega arith)
          (scan_up_stays (suc fuel) m (m p) p (omega arith))
          (ap (scan_down steps m (m p)) at_p ∙ scan_down_stays (suc fuel) m (m p) p (omega arith))
        ∙ ap (scalar_partition_epi32 (suc fuel) steps (m p)) (exchange_swaps p p m (omega arith))
        ∙ done fuel steps (m p) (p + 1) (p - 1) (swap p p m) (omega arith))
      (omega arith) (omega arith)

module _ (fuel p : ℕ) (m : Mem) (somewhere : 0 < p) (low : m (p + 2) < m p)
    (high : m p < m (p + 1)) where
  abbrev steps : ℕ
  steps = suc (suc (suc (suc fuel)))

  abbrev swapped : Mem
  swapped = swap p (p + 2) m

  first_round :
      scalar_partition_epi32 steps steps (m p) (bounds p (p + 3 - 1) m)
      ≡ scalar_partition_epi32
          (suc (suc (suc fuel)))
          steps
          (m p)
          (bounds (p + 1) (p + 2 - 1) swapped)
  first_round =
      let e : p + 3 - 1 ≡ p + 2 = omega arith in
      turn (suc (suc (suc fuel))) steps (m p) p (p + 3 - 1) p (p + 2) m (omega arith)
        (scan_up_stays (suc (suc (suc fuel))) m (m p) p (omega arith))
        (ap (scan_down steps m (m p)) e
          ∙ scan_down_stays (suc (suc (suc fuel))) m (m p) (p + 2) (omega (arith, low)))
      ∙ ap (scalar_partition_epi32 (suc (suc (suc fuel))) steps (m p))
          (exchange_swaps p (p + 2) m (omega arith))

  middle_kept : swapped (p + 1) ≡ m (p + 1)
  middle_kept = swap-other p (p + 2) (p + 1) m (λ e. omega (arith, e)) (λ e. omega (arith, e))

  second_round :
      scalar_partition_epi32 (suc (suc (suc fuel))) steps (m p) (bounds (p + 1) (p + 2 - 1) swapped)
      ≡ some (bounds (p + 1) p swapped)
  second_round =
      let e : p + 2 - 1 ≡ p + 1 = omega arith in
      let e' : p + 1 - 1 ≡ p = omega arith in
      turn (suc (suc fuel)) steps (m p) (p + 1) (p + 2 - 1) (p + 1) p swapped (omega arith)
        (scan_up_stays (suc (suc (suc fuel))) swapped (m p) (p + 1)
          (omega (arith, high, middle_kept)))
        (ap (scan_down steps swapped (m p)) e
          ∙ scan_down_moves (suc (suc (suc fuel))) swapped (m p) (p + 1)
              (omega (arith, high, middle_kept))
          ∙ ap (scan_down (suc (suc (suc fuel))) swapped (m p)) e'
          ∙ scan_down_stays (suc (suc fuel)) swapped (m p) p
              (omega (arith, low, swap_first p (p + 2) m)))
      ∙ ap (scalar_partition_epi32 (suc (suc fuel)) steps (m p))
          (exchange_stops (p + 1) p swapped (omega arith))
      ∙ done (suc fuel) steps (m p) (p + 1) p swapped (omega arith)

  -- Of three elements at a nonzero address the middle one first, the greatest, the least:
  -- `qs_recsv` returns, with 4 or more units of fuel, and leaves them with the least first, the
  -- greatest, the middle one.
  pub qs_recsv_short :
      (m' : Mem) × (qs_recsv (suc (suc (suc (suc fuel)))) m p 3 ≡ some m')
      × (m' p ≡ m (p + 2))
      × (m' (p + 1) ≡ m (p + 1))
      × (m' (p + 2) ≡ m p)
  qs_recsv_short =
      let e : p + 3 - 1 - (p + 1) ≡ 1 = omega arith in
      let same_middle = swap_first (p + 1) (p + 1) swapped in
      (
        swap (p + 1) (p + 1) swapped,
        upper_part (suc (suc (suc fuel))) p 3 (p + 1) p m swapped (first_round ∙ second_round)
              (omega arith) (omega arith)
            ∙ ap (qs_recsv (suc (suc (suc fuel))) swapped (p + 1)) e
            ∙ one_element (suc fuel) (p + 1) swapped (omega arith),
        unmoved p (λ e'. omega (arith, e')) ∙ swap_first p (p + 2) m,
        same_middle ∙ middle_kept,
        unmoved (p + 2) (λ e'. omega (arith, e')) ∙ swap_second p (p + 2) m,
      )
    where
      unmoved : (a : ℕ) → a ≢ p + 1 → swap (p + 1) (p + 1) swapped a ≡ swapped a
      unmoved a ne = swap-other (p + 1) (p + 1) a swapped ne ne
