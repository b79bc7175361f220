-- ===== src/Zoneinfo/Scan.antt =====
-- `strstr` and `sscanf` of the C library, on texts of character codes, as far as the parser of
-- /proc/zoneinfo uses them.
use Prim.Native.Char.{code}
use Prim.Native.String.{String}
use mbench.Prelude.{
  ℕ, ◌+◌, ◌-◌, ◌*◌, ◌^◌, ◌%◌, Bool, true, false, ◌&&◌, ◌||◌, Option, none, some, List, [], ◌∷◌, leb,
  ltb, ◌==◌, if◌then◌else◌,
}

-- The character codes of an ASCII text.
abbrev pub codes : String → List ℕ
codes String.[] = []
codes (String.◌∷◌ c s) = code c ∷ codes s

-- `isspace`
abbrev pub is_space : ℕ → Bool
is_space c = (c == 32) || (leb 9 c && leb c 13)

unfoldable pub skip_spaces : List ℕ → List ℕ
skip_spaces [] = []
skip_spaces (c ∷ cs) = let rest = skip_spaces cs in if is_space c then rest else c ∷ cs

-- The loop that passes over blanks and tabs.
unfoldable pub skip_blanks : List ℕ → List ℕ
skip_blanks [] = []
skip_blanks (c ∷ cs) = let rest = skip_blanks cs in if (c == 32) || (c == 9) then rest else c ∷ cs

unfoldable pub is_prefix : List ℕ → List ℕ → Bool
is_prefix [] cs = true
is_prefix (x ∷ xs) [] = false
is_prefix (x ∷ xs) (c ∷ cs) = (x == c) && is_prefix xs cs

-- The text from the first occurrence on.
unfoldable pub strstr : List ℕ → List ℕ → Option (List ℕ)
strstr needle [] = if is_prefix needle [] then some [] else none
strstr needle (c ∷ cs) =
    let later = strstr needle cs in if is_prefix needle (c ∷ cs) then some (c ∷ cs) else later

abbrev pub contains : List ℕ → List ℕ → Bool
contains needle text = elim (strstr needle text) [ none ↦ false | some t ↦ true ]

-- A format without conversions: white space stands for any amount of it, other characters for
-- themselves. The result is the text after it.
unfoldable pub match : List ℕ → List ℕ → Option (List ℕ)
match [] cs = some cs
match (x ∷ xs) cs =
    let spaced = match xs (skip_spaces cs) in
    if is_space x
    then spaced
    else elim cs [ [] ↦ none | c ∷ cs' ↦ let rest = match xs cs' in if x == c then rest else none ]

abbrev pub is_digit : ℕ → Bool
is_digit c = leb 48 c && leb c 57

abbrev add_digit : Option ℕ → ℕ → ℕ
add_digit none d = d
add_digit (some k) d = k * 10 + d

-- The digits from here on, after the value `n` so far; `none` if there is none at all.
unfoldable pub digits : Option ℕ → List ℕ → Option ℕ
digits n [] = n
digits n (c ∷ cs) =
    let more = digits (some (add_digit n (c - 48))) cs in if is_digit c then more else n

-- A number too large for a `long long` is the largest one, as glibc has it.
unfoldable pub saturate : ℕ → ℕ
saturate n = if ltb n (2 ^ 63) then n else 2 ^ 63 - 1

-- The 64-bit pattern of `-n`, or of the least `long long`.
abbrev pub saturate_negative : ℕ → ℕ
saturate_negative n = (2 ^ 64 - (if ltb n (2 ^ 63) then n else 2 ^ 63)) % 2 ^ 64

-- `%d` and `%lld`: white space, a sign, digits. A negative number is its 64-bit pattern; `%d`
-- keeps the low 32 bits of it, which the callers take. On a number out of range, where the C
-- standard leaves the result open, this is what glibc does.
unfoldable pub number : List ℕ → Option ℕ
number cs = elim (skip_spaces cs) [
  | [] ↦ none
  | c ∷ rest ↦
      if c == 45
      then elim (digits none rest) [ none ↦ none | some n ↦ some (saturate_negative n) ]
      else elim (digits none (if c == 43 then rest else c ∷ rest)) [
        | none ↦ none
        | some n ↦ some (saturate n)
      ]
]

-- `sscanf(text, "<format>%lld", &v) == 1`
abbrev pub scan : List ℕ → List ℕ → Option ℕ
scan format text = elim (match format text) [ none ↦ none | some rest ↦ number rest ]
