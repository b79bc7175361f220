-- ===== src/SortSpeed/Povit/Copies.antt =====
-- What `measurePovit1` leaves in the second array.
use mbench.Prelude.{
  lt→ltb, length, ℕ, zero, suc, ◌+◌, ◌-◌, ◌/◌, ◌≤◌, ◌<◌, ◌≡◌, ◌⊎◌, inl, inr, refl, sym, ap, ◌∙◌,
  Bool, true, false, List, [], ◌∷◌, ◌++◌, Mem, store, store_self, store-ne, if◌then◌else◌, ltb,
  dec_lt, arith,
}
use mbench.SortSpeed.Items.{tally, filter}
use mbench.SortSpeed.Windows.{cells, cells-congr, cells-append, length-cells}
use mbench.SortSpeed.Povit.{Filtered, filter_one, filter_from, measure_povit1}

abbrev pub backwards : List ℕ → List ℕ
backwards [] = []
backwards (x ∷ xs) = backwards xs ++ (x ∷ [])

one_more :
    (m : Mem) (a n x : ℕ) (ys : List ℕ)
    → cells m a n ≡ ys
    → m (a + n) ≡ x
    → cells m a (1 + n) ≡ ys ++ (x ∷ [])
one_more m a n x ys e e' =
    let swap : 1 + n ≡ n + 1 = omega arith in
    let split = cells-append m a n 1 in ap (cells m a) swap ∙ split ∙ (grind arith)

module _ (mid_val : ℕ) where
  abbrev pub small : ℕ → Bool
  small x = ltb x mid_val

  abbrev pub large : ℕ → Bool
  large x = ltb mid_val x

  -- Room for what is to come, apart from what is to be read.
  record Room (src n : ℕ) (s : Filtered) : Type 0 where
    somewhere : 0 < s.left
    fits : s.left + n ≤ s.right + 1
    apart : (src + n ≤ s.left) ⊎ (s.right < src)

  pub record Copied (xs : List ℕ) (s t : Filtered) : Type 0 where
    pub left : t.left ≡ s.left + tally small xs
    pub right : t.right + tally large xs ≡ s.right
    pub below : cells t.mem s.left (tally small xs) ≡ filter small xs
    pub above : cells t.mem (t.right + 1) (tally large xs) ≡ backwards (filter large xs)
    pub frame :
        (b : ℕ)
        → (b < s.left) ⊎ (s.left + tally small xs ≤ b)
        → (b + tally large xs ≤ s.right) ⊎ (s.right < b)
        → t.mem b ≡ s.mem b

  abbrev lower : ℕ → Filtered → Filtered
  lower src s = record { left = s.left + 1; right = s.right; mem = store s.mem s.left (s.mem src) }

  abbrev upper : ℕ → Filtered → Filtered
  upper src s = record { left = s.left; right = s.right - 1; mem = store s.mem s.right (s.mem src) }

  filter_one-cases :
      (src : ℕ) (s : Filtered)
      → ((s.mem src < mid_val) × (filter_one mid_val src s ≡ lower src s))
        ⊎ ((mid_val < s.mem src) × (filter_one mid_val src s ≡ upper src s))
        ⊎ ((s.mem src ≡ mid_val) × (filter_one mid_val src s ≡ s))
  unfolding filter_one
  filter_one-cases src s = elim (dec_lt (s.mem src) mid_val) [
    | yes lt ↦ inl (lt, ground arith)
    | no ge ↦ elim (dec_lt mid_val (s.mem src)) [
      | yes gt ↦ inr (inl (gt, ground arith))
      | no le ↦ inr (inr (omega (arith, ge, le), ground arith))
    ]
  ]

  both_le : (xs : List ℕ) → tally small xs + tally large xs ≤ length xs
  both_le [] = omega arith
  both_le (x ∷ xs) = let rest = both_le xs in ground arith

  lower-Copied :
      (src : ℕ) (xs : List ℕ) (s t : Filtered)
      → s.mem src < mid_val
      → s.left + tally large xs ≤ s.right
      → Copied xs (lower src s) t
      → Copied (s.mem src ∷ xs) s t
  lower-Copied src xs s t lt room h =
      let left' = h.left in
      let right' = h.right in
      let below' = h.below in
      let above' = h.above in
      let placed =
        h.frame s.left (inl (omega arith)) (inl room) ∙ store_self s.mem s.left (s.mem src) in
      record {
        left = grind arith;
        right = grind arith;
        below = grind arith;
        above = grind arith;
        frame = λ b out out'.
            h.frame b (ground arith) (ground arith)
            ∙ store-ne s.mem s.left (s.mem src) b (λ e. ground arith);
      }

  upper-Copied :
      (src : ℕ) (xs : List ℕ) (s t : Filtered)
      → mid_val < s.mem src
      → 0 < s.right
      → s.left + tally small xs ≤ s.right
      → Copied xs (upper src s) t
      → Copied (s.mem src ∷ xs) s t
  upper-Copied src xs s t gt pos room h =
      let left' = h.left in
      let right' = h.right in
      let below' = h.below in
      let above' = h.above in
      let placed =
        h.frame s.right (inr room) (inr (omega arith)) ∙ store_self s.mem s.right (s.mem src) in
      let at_right : t.right + 1 + tally large xs ≡ s.right = omega arith in
      record {
        left = grind arith;
        right = grind arith;
        below = grind arith;
        above = by_test (large (s.mem src)) (lt→ltb mid_val (s.mem src) gt) (
            one_more t.mem (t.right + 1) (tally large xs) (s.mem src) (backwards (filter large xs))
              above' (ap t.mem at_right ∙ placed));
        frame = λ b out out'.
            h.frame b (ground arith) (ground arith)
            ∙ store-ne s.mem s.right (s.mem src) b (λ e. ground arith);
      }
    where
      by_test :
          (b : Bool)
          → b ≡ true
          → cells t.mem (t.right + 1) (1 + tally large xs)
            ≡ backwards (filter large xs) ++ (s.mem src ∷ [])
          → cells t.mem (t.right + 1) ((if b then 1 else 0) + tally large xs)
            ≡ backwards (if b then s.mem src ∷ filter large xs else filter large xs)
      by_test true e h = h
      by_test false e h = absurd (cc)

  equal-Copied :
      (src : ℕ) (xs : List ℕ) (s t : Filtered)
      → s.mem src ≡ mid_val
      → Copied xs s t
      → Copied (s.mem src ∷ xs) s t
  equal-Copied src xs s t e h =
      let left' = h.left in
      let right' = h.right in
      let below' = h.below in
      let above' = h.above in
      record {
        left = grind arith;
        right = grind arith;
        below = grind arith;
        above = grind arith;
        frame = λ b out out'. h.frame b (ground arith) (ground arith);
      }

  cast : (s t : Filtered) (xs ys : List ℕ) → xs ≡ ys → Copied xs s t → Copied ys s t
  cast s t xs ys e h = rw (sym e) h

  filter_from-Copied :
      (src n : ℕ) (s : Filtered)
      → Room src n s
      → Copied (cells s.mem src n) s (filter_from mid_val src n s)
  unfolding filter_from
  filter_from-Copied src zero s room = record {
    left = omega arith;
    right = omega arith;
    below = refl;
    above = refl;
    frame = λ b out out'. refl;
  }
  filter_from-Copied src (suc n) s room =
      let xs = cells s.mem (suc src) n in
      let few = both_le xs in
      let size = length-cells s.mem (suc src) n in
      let apart = room.apart in
      let fits = room.fits in
      let somewhere = room.somewhere in
      elim (filter_one-cases src s) [
        | inl (lt, e) ↦
            let same =
              cells-congr (lower src s).mem s.mem (suc src) (suc src) n
                λ i lt'. store-ne s.mem s.left (s.mem src) (suc src + i) (λ e'. ground arith) in
            rw e (
              lower-Copied src xs s (filter_from mid_val (suc src) n (lower src s)) lt (omega arith)
                (cast (lower src s) _ _ xs same (
                  filter_from-Copied (suc src) n (lower src s) (record {
                    somewhere = omega arith;
                    fits = omega arith;
                    apart = ground arith;
                  }))))
        | inr (inl (gt, e)) ↦
            let same =
              cells-congr (upper src s).mem s.mem (suc src) (suc src) n
                λ i lt'. store-ne s.mem s.right (s.mem src) (suc src + i) (λ e'. ground arith) in
            rw e (
              upper-Copied src xs s (filter_from mid_val (suc src) n (upper src s)) gt (omega arith)
                (omega arith)
                (cast (upper src s) _ _ xs same (
                  filter_from-Copied (suc src) n (upper src s) (record {
                    somewhere = omega arith;
                    fits = omega arith;
                    apart = ground arith;
                  }))))
        | inr (inr (eq, e)) ↦ rw e (
            equal-Copied src xs s (filter_from mid_val (suc src) n s) eq (
              filter_from-Copied (suc src) n s
                (record { somewhere = omega arith; fits = omega arith; apart = ground arith })))
      ]

  -- If the arrays do not overlap and the second is at a nonzero address, `measurePovit1` leaves in
  -- the second array the elements below the pivot from its start on, in their order, and those
  -- above it at its end, in the opposite order; its two pointers tell how many; and no other word
  -- changes, so that the elements that equal the pivot are in neither part.
  pub measure_povit1-Copied :
      (arr dst n : ℕ) (m : Mem)
      → mid_val ≡ m (arr + n / 2)
      → 0 < dst
      → (arr + n ≤ dst) ⊎ (dst + n ≤ arr)
      → Copied
          (cells m arr n)
          (record { left = dst; right = dst + n - 1; mem = m })
          (measure_povit1 arr dst n m)
  unfolding measure_povit1
  measure_povit1-Copied arr dst n m e somewhere apart = rw (sym e) (
      filter_from-Copied arr n (record { left = dst; right = dst + n - 1; mem = m })
        (record { somewhere = somewhere; fits = omega arith; apart = ground arith }))
