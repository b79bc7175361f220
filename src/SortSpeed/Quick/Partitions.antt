-- ===== src/SortSpeed/Quick/Partitions.antt =====
-- What `scalar_partition_epi32` leaves.
use mbench.Prelude.{
  ℕ, zero, suc, ◌+◌, ◌-◌, ◌≤◌, ◌<◌, ◌≡◌, ◌⊎◌, inl, inr, ap, ◌∙◌, some, Mem, dec_lt, arith,
}
use mbench.SortSpeed.Items.{SameItems}
use mbench.SortSpeed.Windows.{Outside, cells}
use mbench.SortSpeed.Quick.{scan_up, scan_down, Bounds, swap, exchange, scalar_partition_epi32}
use mbench.SortSpeed.Quick.Scans.{
  scan_up_ends, scan_down_ends, swap-SameItems, swap-other, swap_first, swap_second, exchange_swaps,
  exchange_stops,
}

module _ (pivot first last : ℕ) (m₀ : Mem) (somewhere : 0 < first) where
  abbrev size : ℕ
  size = last + 1 - first

  pub record Split (s : Bounds) : Type 0 where
    pub low : first ≤ s.right
    pub high : s.left ≤ last
    pub near : first ≤ s.left + 1
    pub end : s.right ≤ last + 1
    pub below : (c : ℕ) → first ≤ c → c < s.right → s.mem c ≤ pivot
    pub above : (c : ℕ) → s.left < c → c ≤ last → pivot ≤ s.mem c
    pub same : SameItems (cells s.mem first size) (cells m₀ first size)
    pub frame : (a : ℕ) → Outside a first size → s.mem a ≡ m₀ a

  -- While the loop goes on, each scan has an element that stops it.
  pub record Stops (s : Bounds) : Type 0 where
    pub up : ℕ
    pub up_in : (s.right ≤ up) × (up ≤ last)
    pub up_large : pivot ≤ s.mem up
    pub down : ℕ
    pub down_in : (first ≤ down) × (down ≤ s.left)
    pub down_small : s.mem down ≤ pivot

  -- Both bounds have moved, or the loop is at its start.
  abbrev pub Moved : Bounds → Type 0
  Moved s =
      ((first < s.right) × (s.left < last))
      ⊎ ((s.right ≡ first) × (s.left ≡ last) × (s.mem first ≡ pivot))

  -- What the scans find.
  record Found (s : Bounds) (r l : ℕ) : Type 0 where
    r_in : (s.right ≤ r) × (r ≤ last)
    l_in : (first ≤ l) × (l ≤ s.left)
    r_large : pivot ≤ s.mem r
    l_small : s.mem l ≤ pivot
    skipped : (c : ℕ) → s.right ≤ c → c < r → s.mem c < pivot
    skipped_down : (c : ℕ) → l < c → c ≤ s.left → pivot < s.mem c

  exchange-Split : (s : Bounds) (r l : ℕ) → Split s → Found s r l → Split (exchange r l s.mem)
  exchange-Split s r l split found =
      let (r_low, r_high) = found.r_in in
      let (l_low, l_high) = found.l_in in
      let end_high = split.high in
      let start_low = split.low in
      elim (dec_lt l r) [
        | yes lt ↦ rw (exchange_stops r l s.mem lt) (record {
          low = omega arith;
          high = omega arith;
          near = omega arith;
          end = omega arith;
          below = λ c le lt'. elim (dec_lt c s.right) [
            | yes before ↦ split.below c le before
            | no after ↦ omega (arith, found.skipped c (omega (arith, after)) lt')
          ];
          above = λ c lt' le. elim (dec_lt s.left c) [
            | yes behind ↦ split.above c behind le
            | no ahead ↦ omega (arith, found.skipped_down c lt' (omega (arith, ahead)))
          ];
          same = split.same;
          frame = split.frame;
        })
        | no ge ↦ rw (exchange_swaps r l s.mem (omega (arith, ge))) (record {
          low = omega arith;
          high = omega arith;
          near = omega arith;
          end = omega arith;
          below = λ c le lt'. swapped_below c le lt' (omega (arith, ge));
          above = λ c lt' le. swapped_above c lt' le (omega (arith, ge));
          same = λ p.
              swap-SameItems r l first size s.mem (omega arith) (omega (arith, ge)) (omega arith) p
              ∙ split.same p;
          frame = λ a out.
              swap-other r l a s.mem (λ e. ground arith) (λ e. ground arith) ∙ split.frame a out;
        })
      ]
    where
      swapped_below : (c : ℕ) → first ≤ c → c < r + 1 → r ≤ l → swap r l s.mem c ≤ pivot
      swapped_below c le lt r_le_l = elim (dec_lt c r) [
        | yes before ↦
            let same =
              swap-other r l c s.mem (λ e. omega (arith, e, before))
                (λ e. omega (arith, e, before, r_le_l)) in
            elim (dec_lt c s.right) [
              | yes early ↦ omega (arith, same, split.below c le early)
              | no late ↦ omega (arith, same, found.skipped c (omega (arith, late)) before)
            ]
        | no at_r ↦
            let e : c ≡ r = omega (arith, at_r, lt) in
            rw e (omega (arith, swap_first r l s.mem, found.l_small))
      ]

      swapped_above : (c : ℕ) → l - 1 < c → c ≤ last → r ≤ l → pivot ≤ swap r l s.mem c
      swapped_above c lt le r_le_l = elim (dec_lt l c) [
        | yes behind ↦
            let same =
              swap-other r l c s.mem (λ e. omega (arith, e, behind, r_le_l))
                (λ e. omega (arith, e, behind)) in
            elim (dec_lt s.left c) [
              | yes late ↦ omega (arith, same, split.above c late le)
              | no early ↦ omega (arith, same, found.skipped_down c behind (omega (arith, early)))
            ]
        | no at_l ↦
            let (l_low, l_high) = found.l_in in
            let e : c ≡ l = omega (arith, at_l, lt) in
            rw e (omega (arith, swap_second r l s.mem, found.r_large))
      ]

  exchange-Stops :
      (s : Bounds) (r l : ℕ)
      → Split s
      → Found s r l
      → (exchange r l s.mem).right ≤ (exchange r l s.mem).left
      → Stops (exchange r l s.mem)
  exchange-Stops s r l split found on = elim (dec_lt l r) [
    | yes lt ↦
        let e = exchange_stops r l s.mem lt in
        let right = ap Bounds.right e in
        let left = ap Bounds.left e in absurd (omega (arith, on, right, left, lt))
    | no ge ↦
        let e = exchange_swaps r l s.mem (omega (arith, ge)) in
        let right = ap Bounds.right e in
        let left = ap Bounds.left e in
        let (r_low, r_high) = found.r_in in
        let (l_low, l_high) = found.l_in in
        rw e (record {
          up = l;
          up_in = (omega arith, omega (arith, split.high));
          up_large = omega (arith, swap_second r l s.mem, found.r_large);
          down = r;
          down_in = (omega (arith, split.low), omega arith);
          down_small = omega (arith, swap_first r l s.mem, found.l_small);
        })
  ]

  scans_find :
      (s : Bounds) (steps : ℕ)
      → Split s
      → Stops s
      → last < first + steps
      → (r : ℕ) × (l : ℕ) × (scan_up steps s.mem pivot s.right ≡ some r)
        × (scan_down steps s.mem pivot s.left ≡ some l)
        × Found s r l
  scans_find s steps split stops enough =
      let (up_low, up_high) = stops.up_in in
      let (down_low, down_high) = stops.down_in in
      let (r, e, low, high, large, skipped) =
        scan_up_ends steps s.mem pivot s.right stops.up up_low (omega (arith, split.low))
          stops.up_large in
      let (l, e', high', low', small, skipped') =
        scan_down_ends steps s.mem pivot s.left stops.down down_high (omega (arith, split.high))
          stops.down_small in
      (
        r,
        l,
        e,
        e',
        record {
          r_in = (low, omega arith);
          l_in = (omega arith, high');
          r_large = large;
          l_small = small;
          skipped = skipped;
          skipped_down = skipped';
        },
      )

  exchange-Moved :
      (s : Bounds) (r l : ℕ) → Split s → Found s r l → Moved s → Moved (exchange r l s.mem)
  exchange-Moved s r l split found moved =
      let (r_low, r_high) = found.r_in in
      let (l_low, l_high) = found.l_in in
      elim (dec_lt l r) [
        | yes lt ↦
            let e : exchange r l s.mem ≡ record { right = r; left = l; mem = s.mem } =
              exchange_stops r l s.mem lt in
            rw e (elim moved [
              | inl (up, down) ↦ inl (omega arith, omega arith)
              | inr (at_first, at_last, is_pivot) ↦ absurd (
                  omega
                    (arith, found.skipped first (omega (arith, at_first)) (omega arith), is_pivot))
            ])
        | no ge ↦
            let e : exchange r l s.mem
                ≡ record { right = r + 1; left = l - 1; mem = swap r l s.mem } =
              exchange_swaps r l s.mem (omega (arith, ge)) in
            rw e (inl (omega (arith, split.low), omega (arith, split.high)))
      ]

  exchange_closer :
      (s : Bounds) (r l rounds : ℕ)
      → Split s
      → Found s r l
      → s.right ≤ s.left
      → s.left + 2 ≤ s.right + suc rounds
      → ((exchange r l s.mem).left + 2 ≤ (exchange r l s.mem).right + rounds) × (0 < rounds)
  exchange_closer s r l rounds split found on enough =
      let (r_low, r_high) = found.r_in in
      let (l_low, l_high) = found.l_in in
      elim (dec_lt l r) [
        | yes lt ↦
            let e = exchange_stops r l s.mem lt in
            let right = ap Bounds.right e in
            let left = ap Bounds.left e in (omega arith, omega arith)
        | no ge ↦
            let e = exchange_swaps r l s.mem (omega (arith, ge)) in
            let right = ap Bounds.right e in
            let left = ap Bounds.left e in (omega arith, omega arith)
      ]

  partition_step :
      (rounds steps : ℕ) (s : Bounds) (r l : ℕ)
      → s.right ≤ s.left
      → scan_up steps s.mem pivot s.right ≡ some r
      → scan_down steps s.mem pivot s.left ≡ some l
      → scalar_partition_epi32 (suc rounds) steps pivot s
        ≡ scalar_partition_epi32 rounds steps pivot (exchange r l s.mem)
  unfolding scalar_partition_epi32
  partition_step rounds steps s r l on e e' = rw (e, e') (ground arith)

  pub partition_ends :
      (rounds steps : ℕ) (s : Bounds)
      → last < first + steps
      → 0 < rounds
      → s.left + 2 ≤ s.right + rounds
      → Split s
      → Moved s
      → (s.right ≤ s.left → Stops s)
      → (s' : Bounds) × (scalar_partition_epi32 rounds steps pivot s ≡ some s')
        × Split s'
        × Moved s'
        × (s'.left < s'.right)
  unfolding scalar_partition_epi32
  partition_ends zero steps s enough lt enough' split moved stops = absurd (omega arith)
  partition_ends (suc rounds) steps s enough lt enough' split moved stops =
      elim (dec_lt s.left s.right) [
        | yes done ↦ (s, ground arith, split, moved, done)
        | no on ↦
            let (r, l, e, e', found) =
              scans_find s steps split (stops (omega (arith, on))) enough in
            let (closer, more) =
              exchange_closer s r l rounds split found (omega (arith, on)) enough' in
            let (s', e'', split', moved', done) =
              partition_ends rounds steps (exchange r l s.mem) enough more closer
                (exchange-Split s r l split found) (exchange-Moved s r l split found moved)
                (exchange-Stops s r l split found) in
            (
              s',
              partition_step rounds steps s r l (omega (arith, on)) e e' ∙ e'',
              split',
              moved',
              done,
            )
      ]
