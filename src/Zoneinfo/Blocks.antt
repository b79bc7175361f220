-- ===== src/Zoneinfo/Blocks.antt =====
-- A well-formed block of /proc/zoneinfo gives the report of its numbers.
use mbench.Prelude.{
  ℕ, ◌+◌, ◌-◌, ◌^◌, ◌%◌, ◌<◌, ◌≡◌, refl, ap, ◌∙◌, false, none, some, List, [], ◌∷◌, ◌++◌, arith,
  to_int, All,
}
use mbench.Zoneinfo.{
  Zone, opened, count_inactive, count_both, report, low_of, core_process, zone, negative,
}
use mbench.Zoneinfo.Scan.{
  codes, contains, scan, saturate, strstr, is_prefix, match, skip_spaces, skip_blanks,
}
use mbench.Zoneinfo.Steps.{core_process-header, zone_pages, zone_other, lows-none, lows-some}
use mbench.Zoneinfo.Lines.{
  Numeral, value, header_line, pages_line, low_line, inactive_line, number-text,
  count_inactive_absent, count_inactive_set, count_inactive_found, header-header_line,
  low_of-low_line, pages_scan, pages_has, pages_no_zone, pages_no_node, inactive_no_pages,
}

-- No turn is made of such a line.
pub record Quiet (l : List ℕ) : Type 0 where
  pub no_pages : contains (codes "pages free") (skip_blanks l) ≡ false
  pub no_zone : contains (codes "nr_zone_inactive_file") (skip_blanks l) ≡ false
  pub no_node : contains (codes "nr_inactive_file") (skip_blanks l) ≡ false

count_both_absent :
    (ptr : List ℕ) (z : Zone)
    → contains (codes "nr_zone_inactive_file") ptr ≡ false
    → contains (codes "nr_inactive_file") ptr ≡ false
    → count_both ptr z ≡ z
unfolding count_both
count_both_absent ptr z a b =
    ap (count_inactive (codes "nr_inactive_file") ptr)
      (count_inactive_absent (codes "nr_zone_inactive_file") ptr z a)
    ∙ count_inactive_absent (codes "nr_inactive_file") ptr z b

saturate-small : (n : ℕ) → n < 2 ^ 63 → saturate n ≡ n
unfolding saturate
saturate-small n small = ground (arith, small)

-- A zone that has its free pages and its low mark.
abbrev half : ℕ → ℕ → ℕ → Zone
half n f l = record {
  zoneid = n;
  free_page = f;
  low = l;
  nr_inactive_file = 2 ^ 64 - 1;
  cnt_got = 1;
}

abbrev whole : ℕ → ℕ → ℕ → ℕ → Zone
whole n f l i = record { zoneid = n; free_page = f; low = l; nr_inactive_file = i; cnt_got = 2 }

zone-Quiet :
    (n f l : ℕ) (quiet rest : List (List ℕ))
    → All Quiet quiet
    → zone (half n f l) (quiet ++ rest) ≡ zone (half n f l) rest
zone-Quiet n f l [] rest all = refl
zone-Quiet n f l (q ∷ qs) rest all =
    zone_other (half n f l) (half n f l) q (qs ++ rest) all.0.no_pages
      (count_both_absent (skip_blanks q) (half n f l) all.0.no_zone all.0.no_node)
    ∙ zone-Quiet n f l qs rest all.1

count_both_inactive :
    (n f l : ℕ) (i : Numeral)
    → value i < 2 ^ 63
    → count_both (skip_blanks (inactive_line i)) (half n f l) ≡ whole n f l (value i)
unfolding count_both skip_blanks match skip_spaces strstr is_prefix
count_both_inactive n f l i small =
    ap (count_inactive (codes "nr_inactive_file") (skip_blanks (inactive_line i))) (
      count_inactive_found (codes "nr_zone_inactive_file") (skip_blanks (inactive_line i))
        (half n f l) (value i) refl refl scanned)
    ∙ count_inactive_set (codes "nr_inactive_file") (skip_blanks (inactive_line i))
        (whole n f l (value i)) positive
  where
    scanned :
        scan (codes "nr_zone_inactive_file" ++ codes " ") (skip_blanks (inactive_line i))
        ≡ some (value i)
    scanned = number-text i 10 [] refl ∙ ap some (saturate-small (value i) small)

    positive : negative (value i) ≡ false
    positive = ground (arith, small)

-- A block of a normal zone with the free pages, one line, the low mark, lines that name neither
-- free nor inactive pages, and the inactive pages of the zone gives one report, of the block's
-- numbers, with the free and inactive pages above the low mark added up modulo 2^64; and what
-- follows the block is read from there on. The node is below 2^31 and the pages are below 2^63.
pub core_process_block :
    (node free low inact : Numeral) (line : List ℕ) (quiet rest : List (List ℕ))
    → low_of line ≡ none
    → All Quiet quiet
    → value node < 2 ^ 31
    → value free < 2 ^ 63
    → value low < 2 ^ 63
    → value inact < 2 ^ 63
    → core_process (
        header_line node
        ∷ pages_line free
        ∷ line
        ∷ low_line low
        ∷ (quiet ++ (inactive_line inact ∷ rest)))
      ≡ record {
        node = value node;
        free = value free;
        low = value low;
        inact = value inact;
        avlb = (value free + value inact + (2 ^ 64 - value low)) % 2 ^ 64;
      }
        ∷ core_process rest
unfolding report
core_process_block node free low inact line quiet rest no_low all node_fits free_fits low_fits
      inact_fits =
    core_process-header (header_line node) _ n
      (header-header_line node ∙ ap (λ k. some (to_int k)) node_small ∙ ap some node_same)
    ∙ zone_pages (opened n) (pages_line free) _ (value free) (pages_has free)
        (pages_scan free ∙ ap some (saturate-small (value free) free_fits))
        (count_both_absent (skip_blanks (pages_line free)) (opened n) (pages_no_zone free)
          (pages_no_node free))
    ∙ lows-none (record (opened n) { free_page = value free }) line _ no_low
    ∙ lows-some (record (opened n) { free_page = value free }) 2 (low_line low) _ (value low)
        (low_of-low_line low ∙ ap some (saturate-small (value low) low_fits)) refl
    ∙ zone-Quiet n (value free) (value low) quiet (inactive_line inact ∷ rest) all
    ∙ zone_other (half n (value free) (value low)) _ (inactive_line inact) rest
        (inactive_no_pages inact) (count_both_inactive n (value free) (value low) inact inact_fits)
  where
    n : ℕ
    n = value node

    node_small : saturate (value node) ≡ value node
    node_small = saturate-small (value node) (omega arith)

    node_same : to_int (value node) ≡ value node
    node_same = omega arith
