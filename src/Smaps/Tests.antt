-- ===== src/Smaps/Tests.antt =====
-- Two mappings, with lines that name no field and a line without a number.
use mbench.Prelude.{ℕ, ◌^◌, ◌%◌, ◌≡◌, refl, some, none, List, [], ◌∷◌}
use mbench.Smaps.{same_text, word, name_value, find_field, add_line, add_lines, parse}
use mbench.Smaps.Totals.{sum, parse-sum}
use mbench.Zoneinfo.Scan.{codes, number, digits, skip_spaces, saturate}

abbrev file : List (List ℕ)
file =
    codes "7f00-7f01 rw-p 0 00:00 0"
    ∷ codes "Rss:                  12 kB"
    ∷ codes "Pss:                   7 kB"
    ∷ codes "VmFlags: rd wr"
    ∷ codes "Rss:                  30 kB"
    ∷ []

abbrev full : ℕ → ℕ
full j = 99

two_rss : parse (some file) full 3 ≡ 42
unfolding parse add_lines add_line name_value find_field same_text word number digits skip_spaces
    saturate
two_rss = refl

not_opened : parse none full 3 ≡ 99
unfolding parse
not_opened = refl

parse-sum_example : parse (some file) full 3 ≡ sum (codes "Rss:") file % 2 ^ 32
parse-sum_example = parse-sum file full 3 (codes "Rss:") refl
