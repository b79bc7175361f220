-- ===== src/Zoneinfo/Nodes.antt =====
-- What is reported, zone by zone.
use mbench.Prelude.{
  ℕ, ◌-◌, ◌+◌, ◌≡◌, refl, ◌∙◌, if◌then◌else◌, Bool, true, false, Option, none, some, List, [], ◌∷◌,
  map, leb,
}
use mathlib.Core.Path.{subst}
use mbench.Zoneinfo.{
  Report, Zone, Next, reported, again, leave, header, opened, count_inactive, count_both, report,
  decide, low_of, core_process, zone, lows,
}
use mbench.Zoneinfo.Scan.{codes, contains, scan, skip_blanks}

-- A list with some elements left out.
pub data Sublist : List ℕ → List ℕ → Type 0 where
  none_left : Sublist [] []
  skip : (x : ℕ) {xs ys : List ℕ} → Sublist xs ys → Sublist xs (x ∷ ys)
  keep : (x : ℕ) {xs ys : List ℕ} → Sublist xs ys → Sublist (x ∷ xs) (x ∷ ys)

-- The nodes of the lines that open a normal zone.
abbrev pub headers : List (List ℕ) → List ℕ
headers [] = []
headers (l ∷ lines) = elim (header l) [ none ↦ headers lines | some n ↦ n ∷ headers lines ]

abbrev pub nodes : List Report → List ℕ
nodes reports = map (λ r. r.node) reports

-- A line more leaves more to choose from.
longer :
    (l : List ℕ) (lines : List (List ℕ)) (xs : List ℕ)
    → Sublist xs (headers lines)
    → Sublist xs (headers (l ∷ lines))
longer l lines xs s = by_header (header l)
  where
    by_header :
        (h : Option ℕ) → Sublist xs (elim h [ none ↦ headers lines | some n ↦ n ∷ headers lines ])
    by_header none = s
    by_header (some n) = skip n s

empty : (ys : List ℕ) → Sublist [] ys
empty [] = none_left
empty (y ∷ ys) = skip y (empty ys)

under :
    (n : ℕ) {xs ys zs : List ℕ}
    → ((ws : List ℕ) → Sublist ws ys → Sublist ws zs)
    → Sublist xs (n ∷ ys)
    → Sublist xs (n ∷ zs)
under n f (skip _ s) = skip n (f _ s)
under n f (keep _ s) = keep n (f _ s)

count_inactive_zoneid :
    (name ptr : List ℕ) (z : Zone) → (count_inactive name ptr z).zoneid ≡ z.zoneid
unfolding count_inactive
count_inactive_zoneid name ptr z = picked _ _
  where
    picked :
        (b : Bool) (o : Option ℕ)
        → (if b
            then elim o [
              | none ↦ z
              | some v ↦ record z { nr_inactive_file = v; cnt_got = z.cnt_got + 1 }
            ]
            else z).zoneid
          ≡ z.zoneid
    picked true none = refl
    picked true (some v) = refl
    picked false o = refl

count_both_zoneid : (ptr : List ℕ) (z : Zone) → (count_both ptr z).zoneid ≡ z.zoneid
unfolding count_both
count_both_zoneid ptr z =
    count_inactive_zoneid (codes "nr_inactive_file") ptr
      (count_inactive (codes "nr_zone_inactive_file") ptr z)
    ∙ count_inactive_zoneid (codes "nr_zone_inactive_file") ptr z

record Claims (lines : List (List ℕ)) : Type 0 where
  core : Sublist (nodes (core_process lines)) (headers lines)
  in_zone : (z : Zone) → Sublist (nodes (zone z lines)) (z.zoneid ∷ headers lines)
  in_lows : (z : Zone) (left : ℕ) → Sublist (nodes (lows z left lines)) (z.zoneid ∷ headers lines)

-- The end of a turn, after the line `l`.
finish :
    (l : List ℕ) (lines : List (List ℕ)) (z : Zone) (n : ℕ)
    → z.zoneid ≡ n
    → Claims lines
    → (d : Next)
    → Sublist
        (nodes (elim d [
          | reported ↦ report z ∷ core_process lines
          | again ↦ zone z lines
          | leave ↦ core_process lines
        ]))
        (n ∷ headers (l ∷ lines))
unfolding report
finish l lines z n e c reported =
    subst (λ k. Sublist (z.zoneid ∷ nodes (core_process lines)) (k ∷ headers (l ∷ lines))) e
      (keep z.zoneid (longer l lines _ c.core))
finish l lines z n e c again =
    subst (λ k. Sublist (nodes (zone z lines)) (k ∷ headers (l ∷ lines))) e
      (under z.zoneid (longer l lines) (c.in_zone z))
finish l lines z n e c leave = skip n (longer l lines _ c.core)

in_core :
    (l : List ℕ) (lines : List (List ℕ))
    → Claims lines
    → Sublist (nodes (core_process (l ∷ lines))) (headers (l ∷ lines))
unfolding core_process
in_core l lines c = by_header (header l)
  where
    by_header :
        (h : Option ℕ)
        → Sublist
            (nodes (elim h [ none ↦ core_process lines | some n ↦ zone (opened n) lines ]))
            (elim h [ none ↦ headers lines | some n ↦ n ∷ headers lines ])
    by_header none = c.core
    by_header (some n) = c.in_zone (opened n)

in_low :
    (l : List ℕ) (lines : List (List ℕ)) (z : Zone) (left : ℕ)
    → Claims lines
    → Sublist (nodes (lows z left (l ∷ lines))) (z.zoneid ∷ headers (l ∷ lines))
unfolding core_process
in_low l lines z left c = by_low (low_of l) (leb left 1)
  where
    by_low :
        (o : Option ℕ) (b : Bool)
        → Sublist
            (nodes (elim o [
              | some v ↦
                  let z' = record z { low = v; cnt_got = z.cnt_got + 1 } in
                  elim (decide z') [
                    | reported ↦ report z' ∷ core_process lines
                    | again ↦ zone z' lines
                    | leave ↦ core_process lines
                  ]
              | none ↦ elim b [
                | false ↦ lows z (left - 1) lines
                | true ↦ elim (decide z) [
                  | reported ↦ report z ∷ core_process lines
                  | again ↦ zone z lines
                  | leave ↦ core_process lines
                ]
              ]
            ]))
            (z.zoneid ∷ headers (l ∷ lines))
    by_low (some v) b =
        finish l lines (record z { low = v; cnt_got = z.cnt_got + 1 }) z.zoneid refl c _
    by_low none false = under z.zoneid (longer l lines) (c.in_lows z (left - 1))
    by_low none true = finish l lines z z.zoneid refl c _

in_a_zone :
    (l : List ℕ) (lines : List (List ℕ)) (z : Zone)
    → Claims lines
    → Sublist (nodes (zone z (l ∷ lines))) (z.zoneid ∷ headers (l ∷ lines))
unfolding core_process
in_a_zone l lines z c =
    by_line (contains (codes "pages free") (skip_blanks l))
      (scan (codes "pages free ") (skip_blanks l)) (count_both (skip_blanks l) z)
      (count_both_zoneid (skip_blanks l) z)
  where
    by_line :
        (b : Bool) (o : Option ℕ) (z' : Zone)
        → z'.zoneid ≡ z.zoneid
        → Sublist
            (nodes (elim b [
              | true ↦ elim o [
                | none ↦ core_process lines
                | some v ↦ lows (record z' { free_page = v }) 3 lines
              ]
              | false ↦ elim (decide z') [
                | reported ↦ report z' ∷ core_process lines
                | again ↦ zone z' lines
                | leave ↦ core_process lines
              ]
            ]))
            (z.zoneid ∷ headers (l ∷ lines))
    by_line true none z' e = skip z.zoneid (longer l lines _ c.core)
    by_line true (some v) z' e =
        subst
          (λ k.
            Sublist (nodes (lows (record z' { free_page = v }) 3 lines)) (k ∷ headers (l ∷ lines)))
          e (under z'.zoneid (longer l lines) (c.in_lows (record z' { free_page = v }) 3))
    by_line false o z' e = finish l lines z' z.zoneid e c _

at_end :
    (z : Zone) (d : Next)
    → Sublist
        (nodes (elim d [ reported ↦ report z ∷ [] | again ↦ [] | leave ↦ [] ]))
        (z.zoneid ∷ [])
unfolding report
at_end z reported = keep z.zoneid none_left
at_end z again = empty _
at_end z leave = empty _

core_process-Claims : (lines : List (List ℕ)) → Claims lines
unfolding core_process
core_process-Claims [] = record {
  core = none_left;
  in_zone = λ z. empty _;
  in_lows = λ z left. at_end z (decide z);
}
core_process-Claims (l ∷ lines) =
    let c = core_process-Claims lines in
    record {
      core = in_core l lines c;
      in_zone = λ z. in_a_zone l lines z c;
      in_lows = λ z left. in_low l lines z left c;
    }

-- The nodes that are reported are, in their order, among those of the lines that open a normal
-- zone, each line counted once, whatever the file holds.
pub core_process-nodes :
    (lines : List (List ℕ)) → Sublist (nodes (core_process lines)) (headers lines)
core_process-nodes lines = (core_process-Claims lines).core
