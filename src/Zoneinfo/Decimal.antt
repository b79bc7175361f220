-- ===== src/Zoneinfo/Decimal.antt =====
-- What the scanning functions make of numbers in decimal, and of texts that lack a character.
use mbench.Prelude.{
  ℕ, ◌+◌, ◌-◌, ◌*◌, ◌≤◌, ◌≡◌, ◌≢◌, refl, ap, ◌∙◌, true, false, Option, none, some, List, [], ◌∷◌,
  ◌++◌, arith, ◌==◌, if◌then◌else◌, All, Bool-cases, inl, inr,
}
use mbench.Zoneinfo.Scan.{
  is_space, is_digit, skip_spaces, is_prefix, strstr, contains, digits, number, saturate,
  saturate_negative,
}

-- The value of the digits, after those that make `k`.
abbrev pub decimal : ℕ → List ℕ → ℕ
decimal k [] = k
decimal k (d ∷ ds) = decimal (k * 10 + (d - 48)) ds

abbrev pub Digit : ℕ → Type 0
Digit c = (48 ≤ c) × (c ≤ 57)

digits_decimal :
    (k : ℕ) (ds : List ℕ) (c : ℕ) (rest : List ℕ)
    → All Digit ds
    → is_digit c ≡ false
    → digits (some k) (ds ++ (c ∷ rest)) ≡ some (decimal k ds)
unfolding digits
digits_decimal k [] c rest all end = rw end refl
digits_decimal k (d ∷ ds) c rest all end =
    let digit : is_digit d ≡ true = ground (arith, all.0) in
    rw digit (digits_decimal (k * 10 + (d - 48)) ds c rest all.1 end)

pub skip_spaces_digit : (d : ℕ) (text : List ℕ) → Digit d → skip_spaces (d ∷ text) ≡ d ∷ text
unfolding skip_spaces
skip_spaces_digit d text digit =
    let shown : is_space d ≡ false = ground (arith, digit) in rw shown refl

number_from :
    (cs : List ℕ) (d : ℕ) (rest : List ℕ) (n : ℕ)
    → skip_spaces cs ≡ d ∷ rest
    → Digit d
    → digits none (d ∷ rest) ≡ some n
    → number cs ≡ some (saturate n)
unfolding number
number_from cs d rest n skipped digit value = by_text (skip_spaces cs) skipped
  where
    by_digits :
        (o : Option ℕ)
        → o ≡ some n
        → (elim o [ none ↦ none | some k ↦ some (saturate k) ]) ≡ some (saturate n)
    by_digits o e = rw e refl

    by_text :
        (text : List ℕ)
        → text ≡ d ∷ rest
        → (elim text [
          | [] ↦ none
          | c ∷ cs' ↦
              if c == 45
              then elim (digits none cs') [ none ↦ none | some k ↦ some (saturate_negative k) ]
              else elim (digits none (if c == 43 then cs' else c ∷ cs')) [
                | none ↦ none
                | some k ↦ some (saturate k)
              ]
        ])
          ≡ some (saturate n)
    by_text text e =
        let minus : (d == 45) ≡ false = ground (arith, digit) in
        let plus : (d == 43) ≡ false = ground (arith, digit) in
        rw (e, minus, plus) (by_digits (digits none (d ∷ rest)) value)

-- A number after any white space, before something that is no digit.
pub number-decimal :
    (cs : List ℕ) (d : ℕ) (ds : List ℕ) (c : ℕ) (rest : List ℕ)
    → skip_spaces cs ≡ d ∷ (ds ++ (c ∷ rest))
    → Digit d
    → All Digit ds
    → is_digit c ≡ false
    → number cs ≡ some (saturate (decimal 0 (d ∷ ds)))
unfolding digits
number-decimal cs d ds c rest skipped digit all end =
    number_from cs d (ds ++ (c ∷ rest)) _ skipped digit first
  where
    first : digits none (d ∷ (ds ++ (c ∷ rest))) ≡ some (decimal 0 (d ∷ ds))
    first =
        let shown : is_digit d ≡ true = ground (arith, digit) in
        let same : d - 48 ≡ 0 * 10 + (d - 48) = omega arith in
        rw shown (digits_decimal (d - 48) ds c rest all end ∙ ap (λ k. some (decimal k ds)) same)

pub contains_later :
    (needle xs ys : List ℕ) → contains needle ys ≡ true → contains needle (xs ++ ys) ≡ true
unfolding strstr
contains_later needle [] ys h = h
contains_later needle (x ∷ xs) ys h = elim (Bool-cases (is_prefix needle (x ∷ (xs ++ ys)))) [
  | inl e ↦ rw (e, contains) refl
  | inr e ↦ rw (e, contains) (contains_later needle xs ys h)
]

-- A text without the first character of what is looked for.
pub contains_absent :
    (x : ℕ) (xs text : List ℕ) → All (λ c. x ≢ c) text → contains (x ∷ xs) text ≡ false
unfolding strstr is_prefix
contains_absent x xs [] all = refl
contains_absent x xs (c ∷ text) all =
    let differs : (x == c) ≡ false = ground (arith, all.0) in
    rw (differs, contains) (contains_absent x xs text all.1)
