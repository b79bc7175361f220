-- ===== src/Zoneinfo/Steps.antt =====
-- What the loops of `coreProcess` do with one line, for what the scans find in it.
use mbench.Prelude.{
  ℕ, ◌+◌, ◌-◌, ◌≡◌, refl, ap, ◌∙◌, Bool, true, false, Option, none, some, List, ◌∷◌, arith,
  eq_of_some, leb,
}
use mbench.Zoneinfo.{
  Report, Zone, reported, again, leave, header, opened, count_both, report, decide, low_of,
  core_process, zone, lows,
}
use mbench.Zoneinfo.Scan.{codes, contains, scan, skip_blanks}

-- The end of a turn.
abbrev pub after : List (List ℕ) → Zone → List Report
after lines z = elim (decide z) [
  | reported ↦ report z ∷ core_process lines
  | again ↦ zone z lines
  | leave ↦ core_process lines
]

pub core_process-header :
    (l : List ℕ) (lines : List (List ℕ)) (n : ℕ)
    → header l ≡ some n
    → core_process (l ∷ lines) ≡ zone (opened n) lines
unfolding core_process
core_process-header l lines n e = by_header (header l) e
  where
    by_header :
        (h : Option ℕ)
        → h ≡ some n
        → (elim h [ none ↦ core_process lines | some k ↦ zone (opened k) lines ])
          ≡ zone (opened n) lines
    by_header h e = rw e refl

pub zone_pages :
    (z : Zone) (l : List ℕ) (lines : List (List ℕ)) (v : ℕ)
    → contains (codes "pages free") (skip_blanks l) ≡ true
    → scan (codes "pages free ") (skip_blanks l) ≡ some v
    → count_both (skip_blanks l) z ≡ z
    → zone z (l ∷ lines) ≡ lows (record z { free_page = v }) 3 lines
unfolding core_process
zone_pages z l lines v has value same =
    by_line (contains (codes "pages free") (skip_blanks l))
      (scan (codes "pages free ") (skip_blanks l)) (count_both (skip_blanks l) z) has value same
  where
    by_line :
        (b : Bool) (o : Option ℕ) (u : Zone)
        → b ≡ true
        → o ≡ some v
        → u ≡ z
        → (elim b [
          | true ↦ elim o [
            | none ↦ core_process lines
            | some k ↦ lows (record u { free_page = k }) 3 lines
          ]
          | false ↦ after lines u
        ])
          ≡ lows (record z { free_page = v }) 3 lines
    by_line true (some k) u eb eo eu =
        ap (λ x. lows (record u { free_page = x }) 3 lines) (eq_of_some eo)
        ∙ ap (λ w. lows (record w { free_page = v }) 3 lines) eu
    by_line true none u eb eo eu = absurd (cc)
    by_line false o u eb eo eu = absurd (cc)

pub zone_other :
    (z z' : Zone) (l : List ℕ) (lines : List (List ℕ))
    → contains (codes "pages free") (skip_blanks l) ≡ false
    → count_both (skip_blanks l) z ≡ z'
    → zone z (l ∷ lines) ≡ after lines z'
unfolding core_process
zone_other z z' l lines has same =
    by_line (contains (codes "pages free") (skip_blanks l))
      (scan (codes "pages free ") (skip_blanks l)) (count_both (skip_blanks l) z) has same
  where
    by_line :
        (b : Bool) (o : Option ℕ) (u : Zone)
        → b ≡ false
        → u ≡ z'
        → (elim b [
          | true ↦ elim o [
            | none ↦ core_process lines
            | some k ↦ lows (record u { free_page = k }) 3 lines
          ]
          | false ↦ after lines u
        ])
          ≡ after lines z'
    by_line true o u eb eu = absurd (cc)
    by_line false o u eb eu = ap (after lines) eu

pub lows-none :
    (z : Zone) (l : List ℕ) (lines : List (List ℕ))
    → low_of l ≡ none
    → lows z 3 (l ∷ lines) ≡ lows z 2 lines
unfolding core_process
lows-none z l lines e = rw (e, lows) refl

pub lows-some :
    (z : Zone) (left : ℕ) (l : List ℕ) (lines : List (List ℕ)) (v : ℕ)
    → low_of l ≡ some v
    → z.cnt_got ≡ 0
    → lows z left (l ∷ lines) ≡ zone (record z { low = v; cnt_got = 1 }) lines
unfolding core_process
lows-some z left l lines v e c = by_low (low_of l) e
  where
    by_low :
        (o : Option ℕ)
        → o ≡ some v
        → (elim o [
          | some k ↦ after lines (record z { low = k; cnt_got = z.cnt_got + 1 })
          | none ↦ elim (leb left 1) [ false ↦ lows z (left - 1) lines | true ↦ after lines z ]
        ])
          ≡ zone (record z { low = v; cnt_got = 1 }) lines
    by_low (some k) eo =
        let one : z.cnt_got + 1 ≡ 1 = omega (arith, c) in
        ap (λ g. after lines (record z { low = k; cnt_got = g })) one
        ∙ ap (λ x. zone (record z { low = x; cnt_got = 1 }) lines) (eq_of_some eo)
    by_low none eo = absurd (cc)
