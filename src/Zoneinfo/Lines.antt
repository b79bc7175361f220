-- ===== src/Zoneinfo/Lines.antt =====
-- The lines of a well-formed block of /proc/zoneinfo, and what the scans find in them.
use mbench.Prelude.{
  ℕ, ◌+◌, ◌<◌, ◌≡◌, ◌≢◌, refl, ap, ◌∙◌, Bool, true, false, Option, none, some, List, [], ◌∷◌, ◌++◌,
  ◌&&◌, eq_of_some, arith, if◌then◌else◌, to_int, All,
}
use mbench.Zoneinfo.{Zone, header, count_inactive, low_of, negative}
use mbench.Zoneinfo.Scan.{
  codes, contains, scan, strstr, is_prefix, match, number, saturate, is_digit, skip_spaces,
  skip_blanks,
}
use mbench.Zoneinfo.Decimal.{
  decimal, Digit, number-decimal, skip_spaces_digit, contains_later, contains_absent,
}

-- A number in decimal, of at least one digit.
pub record Numeral : Type 0 where
  pub first : ℕ
  pub more : List ℕ
  pub digit : Digit first
  pub digits : All Digit more

abbrev pub value : Numeral → ℕ
value n = decimal 0 (n.first ∷ n.more)

-- The numeral, and then the text.
abbrev pub text : Numeral → List ℕ → List ℕ
text n rest = n.first ∷ (n.more ++ rest)

abbrev pub newline : List ℕ
newline = 10 ∷ []

abbrev pub header_line : Numeral → List ℕ
header_line n = codes "Node " ++ text n (codes ", zone   Normal" ++ newline)

abbrev pub pages_line : Numeral → List ℕ
pages_line n = codes "  pages free     " ++ text n newline

abbrev pub low_line : Numeral → List ℕ
low_line n = codes "        low      " ++ text n newline

abbrev pub inactive_line : Numeral → List ℕ
inactive_line n = codes "      nr_zone_inactive_file " ++ text n newline

pub number-text :
    (n : Numeral) (c : ℕ) (rest : List ℕ)
    → is_digit c ≡ false
    → number (skip_spaces (text n (c ∷ rest))) ≡ some (saturate (value n))
number-text n c rest end = number-decimal _ n.first n.more c rest twice n.digit n.digits end
  where
    once : skip_spaces (text n (c ∷ rest)) ≡ text n (c ∷ rest)
    once = skip_spaces_digit n.first (n.more ++ (c ∷ rest)) n.digit

    twice : skip_spaces (skip_spaces (text n (c ∷ rest))) ≡ text n (c ∷ rest)
    twice = ap skip_spaces once ∙ once

digits_absent : (x : ℕ) (ds : List ℕ) → 57 < x → All Digit ds → All (λ c. x ≢ c) (ds ++ newline)
digits_absent x [] big all = (omega arith, tt)
digits_absent x (d ∷ ds) big all = (omega (arith, all.0), digits_absent x ds big all.1)

pub text_absent :
    (x : ℕ) (xs : List ℕ) (n : Numeral) → 57 < x → contains (x ∷ xs) (text n newline) ≡ false
text_absent x xs n big =
    contains_absent x xs (text n newline)
      (omega (arith, n.digit), digits_absent x n.more big n.digits)

pub count_inactive_absent :
    (name ptr : List ℕ) (z : Zone) → contains name ptr ≡ false → count_inactive name ptr z ≡ z
unfolding count_inactive
count_inactive_absent name ptr z e =
    by_tests (negative z.nr_inactive_file) (contains name ptr) (scan (name ++ codes " ") ptr) e
  where
    by_tests :
        (a b : Bool) (o : Option ℕ)
        → b ≡ false
        → (if a && b
            then elim o [
              | none ↦ z
              | some v ↦ record z { nr_inactive_file = v; cnt_got = z.cnt_got + 1 }
            ]
            else z)
          ≡ z
    by_tests true true o eb = absurd (cc)
    by_tests true false o eb = refl
    by_tests false b o eb = refl

pub count_inactive_set :
    (name ptr : List ℕ) (z : Zone)
    → negative z.nr_inactive_file ≡ false
    → count_inactive name ptr z ≡ z
unfolding count_inactive
count_inactive_set name ptr z e =
    by_test (negative z.nr_inactive_file) (contains name ptr) (scan (name ++ codes " ") ptr) e
  where
    by_test :
        (a b : Bool) (o : Option ℕ)
        → a ≡ false
        → (if a && b
            then elim o [
              | none ↦ z
              | some v ↦ record z { nr_inactive_file = v; cnt_got = z.cnt_got + 1 }
            ]
            else z)
          ≡ z
    by_test true b o ea = absurd (cc)
    by_test false b o ea = refl

pub count_inactive_found :
    (name ptr : List ℕ) (z : Zone) (v : ℕ)
    → negative z.nr_inactive_file ≡ true
    → contains name ptr ≡ true
    → scan (name ++ codes " ") ptr ≡ some v
    → count_inactive name ptr z ≡ record z { nr_inactive_file = v; cnt_got = z.cnt_got + 1 }
unfolding count_inactive
count_inactive_found name ptr z v =
    by_tests (negative z.nr_inactive_file) (contains name ptr) (scan (name ++ codes " ") ptr)
  where
    by_tests :
        (a b : Bool) (o : Option ℕ)
        → a ≡ true
        → b ≡ true
        → o ≡ some v
        → (if a && b
            then elim o [
              | none ↦ z
              | some k ↦ record z { nr_inactive_file = k; cnt_got = z.cnt_got + 1 }
            ]
            else z)
          ≡ record z { nr_inactive_file = v; cnt_got = z.cnt_got + 1 }
    by_tests true true (some k) ea eb eo =
        ap (λ x. record z { nr_inactive_file = x; cnt_got = z.cnt_got + 1 }) (eq_of_some eo)
    by_tests true true none ea eb eo = absurd (cc)
    by_tests true false o ea eb eo = absurd (cc)
    by_tests false b o ea eb eo = absurd (cc)

pub header-header_line : (n : Numeral) → header (header_line n) ≡ some (to_int (saturate (value n)))
unfolding header match skip_spaces strstr is_prefix
header-header_line n =
    by_scan (scan (codes "Node ") (header_line n)) (contains (codes "Normal") (header_line n))
      (number-text n 44 (codes " zone   Normal" ++ newline) refl)
      (contains_later (codes "Normal") (codes "Node " ++ (n.first ∷ n.more))
        (codes ", zone   Normal" ++ newline) refl)
  where
    by_scan :
        (o : Option ℕ) (b : Bool)
        → o ≡ some (saturate (value n))
        → b ≡ true
        → (elim o [ none ↦ none | some k ↦ if b then some (to_int k) else none ])
          ≡ some (to_int (saturate (value n)))
    by_scan (some k) true eo eb = ap (λ x. some (to_int x)) (eq_of_some eo)
    by_scan (some k) false eo eb = absurd (cc)
    by_scan none b eo eb = absurd (cc)

pub low_of-low_line : (n : Numeral) → low_of (low_line n) ≡ some (saturate (value n))
unfolding low_of strstr is_prefix match skip_spaces
low_of-low_line n = number-text n 10 [] refl

pub pages_scan :
    (n : Numeral)
    → scan (codes "pages free ") (skip_blanks (pages_line n)) ≡ some (saturate (value n))
unfolding match skip_blanks skip_spaces
pages_scan n = number-text n 10 [] refl

pub pages_has : (n : Numeral) → contains (codes "pages free") (skip_blanks (pages_line n)) ≡ true
unfolding strstr is_prefix skip_blanks
pages_has n = refl

pub pages_no_zone :
    (n : Numeral) → contains (codes "nr_zone_inactive_file") (skip_blanks (pages_line n)) ≡ false
unfolding strstr is_prefix skip_blanks
pages_no_zone n = text_absent 110 (codes "r_zone_inactive_file") n (omega arith)

pub pages_no_node :
    (n : Numeral) → contains (codes "nr_inactive_file") (skip_blanks (pages_line n)) ≡ false
unfolding strstr is_prefix skip_blanks
pages_no_node n = text_absent 110 (codes "r_inactive_file") n (omega arith)

pub inactive_no_pages :
    (n : Numeral) → contains (codes "pages free") (skip_blanks (inactive_line n)) ≡ false
unfolding strstr is_prefix skip_blanks
inactive_no_pages n = text_absent 112 (codes "ages free") n (omega arith)
