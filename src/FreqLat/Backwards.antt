-- ===== src/FreqLat/Backwards.antt =====
-- The ring of freqLat.c: one cycle through all segments if the stride divides the size, and a
-- link to no segment if it does not.
use mbench.Prelude.{
  ℕ, zero, suc, ◌+◌, ◌-◌, ◌*◌, ◌/◌, ◌%◌, ◌^◌, ◌≤◌, ◌<◌, ◌≡◌, refl, sym, ap, ◌∙◌, ◌≢◌, ◌↔◌, arith,
  ℕ_discrete, Mem, store, store_self, store-ne, chase,
}
use mathlib.Core.Path.{subst}
use mbench.Ring.{Period}
use mbench.MemLat.Setup.Invariant.{Cell}
use mbench.FreqLat.{add64, sub64, link, turns, build}

sub64_sub : (p s : ℕ) → s ≤ p → p < 2 ^ 64 → 0 < s → sub64 p s ≡ p - s
sub64_sub p s h lt pos = omega arith

module _ (base stride : ℕ) (wide : 8 ≤ stride) where
  abbrev seg : ℕ → ℕ
  seg j = base + j * stride

  down : (n : ℕ) → seg (suc n) < 2 ^ 64 → sub64 (seg (suc n)) stride ≡ seg n
  down n lt = sub64_sub (seg (suc n)) stride (grind arith) lt (omega arith) ∙ grind arith

  link_turn :
      (n : ℕ) (m : Mem)
      → seg (suc n) < 2 ^ 64
      → link stride (suc n) (m, seg (suc n)) ≡ link stride n (store m (seg (suc n)) (seg n), seg n)
  unfolding link
  link_turn n m lt = ap (λ v. link stride n (store m (seg (suc n)) v, v)) (down n lt)

  link_end : (n : ℕ) (m : Mem) → seg n < 2 ^ 64 → (link stride n (m, seg n)).1 ≡ base
  unfolding link
  link_end zero m lt = omega arith
  link_end (suc n) m lt = ap (λ w. w.1) (link_turn n m lt) ∙ link_end n _ (grind arith)

  -- Words above the segment that the loop has come to stay.
  link_above :
      (n : ℕ) (m : Mem) (a : ℕ) → seg n < 2 ^ 64 → seg n < a → (link stride n (m, seg n)).0 a ≡ m a
  unfolding link
  link_above zero m a lt above = refl
  link_above (suc n) m a lt above =
      ap (λ w. w.0 a) (link_turn n m lt)
      ∙ link_above n _ a (grind arith) (grind arith)
      ∙ store-ne m _ _ a (λ e. absurd (omega (arith, e, above)))

  link_links :
      (n j : ℕ) (m : Mem)
      → seg n < 2 ^ 64
      → j < n
      → (link stride n (m, seg n)).0 (seg (suc j)) ≡ seg j
  link_links zero j m lt h = absurd (omega arith)
  link_links (suc n) j m lt h =
      ap (λ w. w.0 (seg (suc j))) (link_turn n m lt) ∙ elim (ℕ_discrete j n) [
        | yes e ↦ link_above n _ (seg (suc j)) (grind arith) (grind arith) ∙ newest e
        | no ne ↦ link_links n j _ (grind arith) (omega arith)
      ]
    where
      newest : j ≡ n → store m (seg (suc n)) (seg n) (seg (suc j)) ≡ seg j
      newest e =
          subst (λ k. store m (seg (suc n)) (seg n) (seg (suc k)) ≡ seg k) (sym e)
            (store_self m (seg (suc n)) (seg n))

div_le : (x y : ℕ) → 0 < y → x / y * y ≤ x
div_le x y pos = grind arith

div_mod : (x y : ℕ) → 0 < y → x ≡ x / y * y + x % y
div_mod x y pos = grind arith

mul_le : (x y s : ℕ) → x ≤ y → x * s ≤ y * s
mul_le x y s h = grind arith

mul_comm : (x y : ℕ) → x * y ≡ y * x
mul_comm x y = grind arith

-- The ring over `n + 1` segments.
module _ (pptr n_bytes stride n : ℕ) (m : Mem) (wide : 8 ≤ stride) (segs : n_bytes / stride ≡ suc n)
    (fits : pptr + n_bytes < 2 ^ 64) where
  enough : suc n * stride ≤ n_bytes
  enough = rw segs at (div_le n_bytes stride (omega arith))

  small : suc n < 2 ^ 64
  small = grind (arith, enough)

  offset : stride * sub64 (n_bytes / stride) 1 % 2 ^ 64 ≡ n * stride
  offset =
      let one_less : sub64 (n_bytes / stride) 1 ≡ n = omega (arith, segs, small) in
      let below : n * stride < 2 ^ 64 = grind (arith, enough) in
      rw one_less (omega (arith, mul_comm stride n))

  first_pos : add64 pptr (stride * sub64 (n_bytes / stride) 1 % 2 ^ 64) ≡ pptr + n * stride
  first_pos = rw offset (grind (arith, enough))

  last_link : sub64 (add64 pptr n_bytes) stride ≡ pptr + n_bytes - stride
  last_link =
      let whole : add64 pptr n_bytes ≡ pptr + n_bytes = omega arith in
      rw whole (sub64_sub (pptr + n_bytes) stride (grind (arith, enough)) fits (omega arith))

  build_is :
      build pptr n_bytes stride m
      ≡ (store (link stride n (m, pptr + n * stride)).0 pptr (pptr + n_bytes - stride), pptr)
  unfolding build
  build_is =
      let count : turns (n_bytes / stride) ≡ n = omega (arith, segs) in
      let low : pptr + n * stride < 2 ^ 64 = grind (arith, enough) in
      rw (count, first_pos, last_link, link_end pptr stride wide n m low) refl

  abbrev linked : Mem
  linked = (link stride n (m, pptr + n * stride)).0

  first_link : (build pptr n_bytes stride m).0 pptr ≡ pptr + n_bytes - stride
  first_link = ap (λ w. w.0 pptr) build_is ∙ store_self linked pptr (pptr + n_bytes - stride)

  lower_link :
      (j : ℕ) → j < n → (build pptr n_bytes stride m).0 (pptr + suc j * stride) ≡ pptr + j * stride
  lower_link j lt =
      let off : pptr ≢ pptr + suc j * stride = λ e. grind (arith, e) in
      ap (λ w. w.0 (pptr + suc j * stride)) build_is
      ∙ store-ne linked pptr (pptr + n_bytes - stride) (pptr + suc j * stride) off
      ∙ link_links pptr stride wide n j m (grind (arith, enough)) lt

  parts : n_bytes ≡ suc n * stride + n_bytes % stride
  parts = rw segs at (div_mod n_bytes stride (omega arith))

  -- Whether the first load from `pptr`, where the reads begin, leads to a segment.
  first_load_iff :
      Cell pptr n_bytes stride ((build pptr n_bytes stride m).0 pptr) ↔ (n_bytes % stride ≡ 0)
  first_load_iff = (
    λ (j, lt, e).
        let at : pptr + n_bytes - stride ≡ pptr + j * stride = sym first_link ∙ e in
        let le : suc j * stride ≤ suc n * stride =
          mul_le (suc j) (suc n) stride (omega (arith, segs)) in
        omega (arith, at, le, parts, enough),
    λ z. (n, omega (arith, segs), first_link ∙ omega (arith, parts, z)),
  )

  module _ (divides : n_bytes ≡ suc n * stride) where
    down_chase :
        (k : ℕ)
        → k < suc n
        → chase (build pptr n_bytes stride m).0 (suc k) pptr ≡ pptr + (n - k) * stride
    down_chase zero lt = first_link ∙ grind (arith, divides)
    down_chase (suc k) lt =
        let at : n - k ≡ suc (n - suc k) = omega arith in
        ap (build pptr n_bytes stride m).0
          (down_chase k (omega arith) ∙ ap (λ i. pptr + i * stride) at)
        ∙ lower_link (n - suc k) (omega arith)

    later_chase : (k : ℕ) → k < n → chase (build pptr n_bytes stride m).0 (suc k) pptr ≢ pptr
    later_chase k lt e =
        let at : pptr + (n - k) * stride ≡ pptr = sym (down_chase k (omega arith)) ∙ e in
        let le : 1 * stride ≤ (n - k) * stride = mul_le 1 (n - k) stride (omega arith) in
        omega (arith, at, le, wide)

    whole_Period : Period (build pptr n_bytes stride m).0 pptr (suc n)
    whole_Period = (omega arith, down_chase n (omega arith) ∙ home, early)
      where
        home : pptr + (n - n) * stride ≡ pptr
        home = let z : n - n ≡ 0 = omega arith in rw z (omega arith)

        early : (k : ℕ) → 0 < k → k < suc n → chase (build pptr n_bytes stride m).0 k pptr ≢ pptr
        early zero pos lt = absurd (omega arith)
        early (suc k) pos lt = later_chase k (omega arith)

    all_Cell : (k : ℕ) → Cell pptr n_bytes stride (chase (build pptr n_bytes stride m).0 k pptr)
    all_Cell zero = (0, omega (arith, segs), omega arith)
    all_Cell (suc k) = down (all_Cell k)
      where
        whole : n - 0 ≡ n
        whole = omega arith

        origin : pptr + 0 * stride ≡ pptr
        origin = omega arith

        down :
            {a : ℕ}
            → Cell pptr n_bytes stride a
            → Cell pptr n_bytes stride ((build pptr n_bytes stride m).0 a)
        down (zero, lt, e) =
            let base : _ ≡ pptr = e ∙ origin in
            (
              n,
              omega (arith, segs),
              ap (build pptr n_bytes stride m).0 base
                  ∙ down_chase 0 (omega arith)
                  ∙ ap (λ i. pptr + i * stride) whole,
            )
        down (suc j, lt, e) = (
          j,
          omega arith,
          ap (build pptr n_bytes stride m).0 e ∙ lower_link j (omega (arith, segs)),
        )

-- Where the stride is at least 8, the buffer holds at least one segment and its addresses stay
-- below 2^64, `build` ends at its start; if the stride divides the size, the chase from there is
-- one ring through all segments, at segments only; and the very first load leads to a segment
-- exactly if the stride divides the size.
pub build-Period :
    (pptr n_bytes stride : ℕ) (m : Mem)
    → 8 ≤ stride
    → 0 < n_bytes / stride
    → pptr + n_bytes < 2 ^ 64
    → ((build pptr n_bytes stride m).1 ≡ pptr)
      × (n_bytes % stride ≡ 0
          → Period (build pptr n_bytes stride m).0 pptr (n_bytes / stride)
            × ((k : ℕ) → Cell pptr n_bytes stride (chase (build pptr n_bytes stride m).0 k pptr)))
      × (Cell pptr n_bytes stride ((build pptr n_bytes stride m).0 pptr) ↔ (n_bytes % stride ≡ 0))
build-Period pptr n_bytes stride m wide some fits = (
  ap (λ w. w.1) (build_is pptr n_bytes stride n m wide segs fits),
  λ z. (
    subst (Period (build pptr n_bytes stride m).0 pptr) (sym segs)
        (whole_Period pptr n_bytes stride n m wide segs fits (divides z)),
    all_Cell pptr n_bytes stride n m wide segs fits (divides z),
  ),
  first_load_iff pptr n_bytes stride n m wide segs fits,
)
  where
    n : ℕ
    n = n_bytes / stride - 1

    segs : n_bytes / stride ≡ suc n
    segs = omega (arith, some)

    divides : n_bytes % stride ≡ 0 → n_bytes ≡ suc n * stride
    divides z = omega (arith, parts pptr n_bytes stride n m wide segs fits, z)
