-- ===== src/Zoneinfo/Tests.antt =====
-- A file with two zones, of which the second is the normal one.
use mbench.Prelude.{◌+◌, ◌%◌, ◌<◌, ◌++◌, arith, ℕ, ◌≡◌, refl, some, none, List, [], ◌∷◌, ◌^◌, ◌-◌}
use mbench.Zoneinfo.Lines.{Numeral, value, header_line, pages_line, low_line, inactive_line}
use mbench.Zoneinfo.Blocks.{Quiet, core_process_block}
use mbench.Zoneinfo.Nodes.{Sublist, nodes, headers, core_process-nodes}
use mbench.Zoneinfo.{
  main, n, other, set_options, header, core_process, zone, lows, count_inactive, count_both, report,
  low_of,
}
use mbench.Zoneinfo.Scan.{
  codes, scan, strstr, is_prefix, match, number, digits, skip_spaces, skip_blanks, saturate,
}

abbrev file : List (List ℕ)
file =
    codes "Node 0, zone    DMA32"
    ∷ codes "  pages free     3"
    ∷ codes "Node 1, zone   Normal"
    ∷ codes "  pages free     900"
    ∷ codes "        min      5"
    ∷ codes "        low      70"
    ∷ codes "      nr_zone_inactive_anon 2"
    ∷ codes "      nr_zone_inactive_file 20"
    ∷ codes "Node 2, zone   Normal"
    ∷ []

one_zone :
    core_process file ≡ record { node = 1; free = 900; low = 70; inact = 20; avlb = 850 } ∷ []
unfolding core_process zone lows header count_inactive count_both report low_of strstr is_prefix
    match number digits skip_spaces skip_blanks saturate
one_zone = refl

below_zero : scan (codes "low ") (codes "low  -3") ≡ some (2 ^ 64 - 3)
unfolding match number digits skip_spaces
below_zero = refl

wrong_option : main (n 0 ∷ other ∷ []) (some file) ≡ none
unfolding main set_options
wrong_option = refl

core_process-nodes_example : Sublist (nodes (core_process file)) (headers file)
core_process-nodes_example = core_process-nodes file

-- 7, 70 and 900, as they are written.
seven : Numeral
seven = record { first = 55; more = []; digit = (omega arith, omega arith); digits = tt }

seventy : Numeral
seventy = record {
  first = 55;
  more = 48 ∷ [];
  digit = (omega arith, omega arith);
  digits = ((omega arith, omega arith), tt);
}

nine_hundred : Numeral
nine_hundred = record {
  first = 57;
  more = 48 ∷ 48 ∷ [];
  digit = (omega arith, omega arith);
  digits = ((omega arith, omega arith), ((omega arith, omega arith), tt));
}

min_line : List ℕ
min_line = codes "        min      5"

min_line_lem : low_of min_line ≡ none
unfolding min_line low_of strstr is_prefix
min_line_lem = refl

anon_line : List ℕ
anon_line = codes "      nr_zone_inactive_anon 2"

anon_line-Quiet : Quiet anon_line
unfolding anon_line strstr is_prefix skip_blanks
anon_line-Quiet = record { no_pages = refl; no_zone = refl; no_node = refl }

below : (value seven < 2 ^ 31) × (value nine_hundred < 2 ^ 63) × (value seventy < 2 ^ 63)
unfolding seven seventy nine_hundred
below = (omega arith, omega arith, omega arith)

core_process_block_example :
    core_process (
      header_line seven
      ∷ pages_line nine_hundred
      ∷ min_line
      ∷ low_line seventy
      ∷ ((anon_line ∷ []) ++ (inactive_line seventy ∷ file)))
    ≡ record {
      node = value seven;
      free = value nine_hundred;
      low = value seventy;
      inact = value seventy;
      avlb = (value nine_hundred + value seventy + (2 ^ 64 - value seventy)) % 2 ^ 64;
    }
      ∷ core_process file
core_process_block_example =
    core_process_block seven nine_hundred seventy seventy min_line (anon_line ∷ []) file
      min_line_lem (anon_line-Quiet, tt) below.0 below.1 below.2 below.2
