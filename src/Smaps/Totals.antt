-- ===== src/Smaps/Totals.antt =====
-- Each field is the sum of the values of the lines with its name.
use mbench.Prelude.{
  not, ◌≤◌, ==_iff, ℕ, zero, suc, ◌+◌, ◌^◌, ◌%◌, ◌<◌, ◌≡◌, ◌≢◌, refl, sym, ap, ◌∙◌, Bool, true,
  false, ◌&&◌, Option, none, some, List, [], ◌∷◌, arith, ◌==◌, if◌then◌else◌, get_elem?, update,
  update_self, update-ne, Bool-cases, inl, inr, ℕ_discrete, eq_of_some,
}
use mathlib.Core.Path.{subst}
use mbench.Zoneinfo.Scan.{codes}
use mbench.Smaps.{
  get_rss_basic, index, field_name, same_text, name_value, find_field, add_line, add_lines, parse,
}

-- The value that a line adds to the field called `name`.
abbrev pub share : List ℕ → List ℕ → ℕ
share name l = elim (name_value l) [
  | none ↦ 0
  | some found ↦ if same_text found.0 name then found.1 else 0
]

abbrev pub sum : List ℕ → List (List ℕ) → ℕ
sum name [] = 0
sum name (l ∷ lines) = share name l + sum name lines

-- No two names of the list are the same text.
abbrev pub fresh : List ℕ → List (List ℕ) → Bool
fresh x [] = true
fresh x (y ∷ ys) = not (same_text x y) && fresh x ys

abbrev pub all_fresh : List (List ℕ) → Bool
all_fresh [] = true
all_fresh (x ∷ xs) = fresh x xs && all_fresh xs

both : (a b : Bool) → (a && b) ≡ true → (a ≡ true) × (b ≡ true)
both true true e = (refl, refl)
both true false e = absurd (cc)
both false b e = absurd (cc)

false_of_not : (a : Bool) → not a ≡ true → a ≡ false
false_of_not true e = absurd (cc)
false_of_not false e = refl

same_text-eq : (xs ys : List ℕ) → same_text xs ys ≡ true → xs ≡ ys
unfolding same_text
same_text-eq [] [] e = refl
same_text-eq [] (y ∷ ys) e = absurd (cc)
same_text-eq (x ∷ xs) [] e = absurd (cc)
same_text-eq (x ∷ xs) (y ∷ ys) e =
    let (h, t) = both (x == y) (same_text xs ys) e in
    let first : x ≡ y = (==_iff x y).0 h in let rest = same_text-eq xs ys t in cc

same_text_self : (xs : List ℕ) → same_text xs xs ≡ true
unfolding same_text
same_text_self [] = refl
same_text_self (x ∷ xs) = let e : (x == x) ≡ true = ground arith in rw e (same_text_self xs)

names_fresh : all_fresh field_name ≡ true
unfolding same_text
names_fresh = refl

fresh_at :
    (x name : List ℕ) (xs : List (List ℕ)) (k : ℕ)
    → fresh x xs ≡ true
    → get_elem? xs k ≡ some name
    → same_text x name ≡ false
fresh_at x name [] k f e = absurd (cc)
fresh_at x name (y ∷ ys) zero f e =
    ap (same_text x) (sym (eq_of_some e)) ∙ false_of_not _ (both _ _ f).0
fresh_at x name (y ∷ ys) (suc k) f e = fresh_at x name ys k (both _ _ f).1 e

find_field_ge :
    (j k : ℕ) (names : List (List ℕ)) (other : List ℕ) → find_field j names other ≡ some k → j ≤ k
unfolding find_field
find_field_ge j k [] other e = absurd (cc)
find_field_ge j k (x ∷ xs) other e = elim (Bool-cases (same_text other x)) [
  | inl t ↦ let at : j ≡ k = eq_of_some (rw t at e) in omega (arith, at)
  | inr f ↦ omega (arith, find_field_ge (suc j) k xs other (rw f at e))
]

-- The search finds a name at its place, and at no other.
find_field_at :
    (j k : ℕ) (names : List (List ℕ)) (name other : List ℕ)
    → all_fresh names ≡ true
    → get_elem? names k ≡ some name
    → (find_field j names other ≡ some (j + k) → same_text other name ≡ true)
      × (same_text other name ≡ true → find_field j names other ≡ some (j + k))
unfolding find_field
find_field_at j k [] name other d e = absurd (cc)
find_field_at j zero (x ∷ xs) name other d e = elim (Bool-cases (same_text other x)) [
  | inl t ↦ rw t ((λ h. ap (same_text other) (sym (eq_of_some e)) ∙ t), λ s. ap some here)
  | inr f ↦ rw f (
    (λ h. absurd (omega (arith, find_field_ge (suc j) (j + 0) xs other h))),
    λ s. absurd (clash f (ap (same_text other) (eq_of_some e) ∙ s)),
  )
]
  where
    here : j ≡ j + 0
    here = omega arith

    clash : same_text other x ≡ false → same_text other x ≢ true
    clash f t = cc
find_field_at j (suc k) (x ∷ xs) name other d e = elim (Bool-cases (same_text other x)) [
  | inl t ↦ rw t (
    (λ h. absurd (past (eq_of_some h))),
    λ s. absurd (twice (ap (λ u. same_text u name) (sym (same_text-eq other x t)) ∙ s)),
  )
  | inr f ↦ rw f (
      subst
        (λ i.
          (find_field (suc j) xs other ≡ some i → same_text other name ≡ true)
          × (same_text other name ≡ true → find_field (suc j) xs other ≡ some i))
        next (find_field_at (suc j) k xs name other (both _ _ d).1 e))
]
  where
    past : j ≡ j + suc k → ⊥
    past h = omega (arith, h)

    twice : same_text x name ≡ true → ⊥
    twice t = let f : same_text x name ≡ false = fresh_at x name xs k (both _ _ d).0 e in cc

    next : suc j + k ≡ j + suc k
    next = omega arith

-- The entries after a line, by what the scan and the search find.
abbrev set_at : (ℕ → ℕ) → ℕ → Option ℕ → ℕ → ℕ
set_at fields v none = fields
set_at fields v (some i) = update fields i ((fields i + v) % 2 ^ 32)

abbrev with_line : (ℕ → ℕ) → Option (List ℕ × ℕ) → ℕ → ℕ
with_line fields none = fields
with_line fields (some found) = set_at fields found.1 (find_field 0 field_name found.0)

abbrev part : List ℕ → Option (List ℕ × ℕ) → ℕ
part name none = 0
part name (some found) = if same_text found.0 name then found.1 else 0

-- One line, for the field at `j`.
add_line_at :
    (fields : ℕ → ℕ) (l : List ℕ) (j : ℕ) (name : List ℕ)
    → get_elem? field_name j ≡ some name
    → fields j < 2 ^ 32
    → add_line fields l j ≡ (fields j + share name l) % 2 ^ 32
unfolding add_line
add_line_at fields l j name at small = by_line (name_value l)
  where
    wrapped : fields j ≡ (fields j + 0) % 2 ^ 32
    wrapped = omega (arith, small)

    same_place : (i : ℕ) → some i ≡ some j → some i ≡ some (0 + j)
    same_place i e = let z : j ≡ 0 + j = omega arith in e ∙ ap some z

    found_place :
        (v : ℕ) (other : List ℕ) (o : Option ℕ)
        → (o ≡ some (0 + j) → same_text other name ≡ true)
          × (same_text other name ≡ true → o ≡ some (0 + j))
        → set_at fields v o j ≡ (fields j + (if same_text other name then v else 0)) % 2 ^ 32
    found_place v other none iff = elim (Bool-cases (same_text other name)) [
      | inl t ↦ absurd (missing (iff.1 t))
      | inr f ↦ rw f wrapped
    ]
      where
        missing : none ≢ some (0 + j)
        missing e = cc
    found_place v other (some i) iff = elim (ℕ_discrete i j) [
      | yes e ↦
          let here : same_text other name ≡ true = iff.0 (same_place i (ap some e)) in
          rw here (
            subst (λ k. update fields k ((fields k + v) % 2 ^ 32) j ≡ (fields j + v) % 2 ^ 32)
              (sym e) (update_self fields j ((fields j + v) % 2 ^ 32)))
      | no ne ↦ elim (Bool-cases (same_text other name)) [
        | inl t ↦ absurd (ne (placed (iff.1 t)))
        | inr f ↦ rw f (update-ne fields i j _ ne ∙ wrapped)
      ]
    ]
      where
        placed : some i ≡ some (0 + j) → i ≡ j
        placed e = let z : 0 + j ≡ j = omega arith in eq_of_some e ∙ z

    by_line : (o : Option (List ℕ × ℕ)) → with_line fields o j ≡ (fields j + part name o) % 2 ^ 32
    by_line none = wrapped
    by_line (some (other, v)) =
        found_place v other _ (find_field_at 0 j field_name name other names_fresh at)

add_lines_at :
    (lines : List (List ℕ)) (fields : ℕ → ℕ) (j : ℕ) (name : List ℕ)
    → get_elem? field_name j ≡ some name
    → fields j < 2 ^ 32
    → add_lines fields lines j ≡ (fields j + sum name lines) % 2 ^ 32
unfolding add_lines
add_lines_at [] fields j name at small = omega (arith, small)
add_lines_at (l ∷ lines) fields j name at small =
    let line = add_line_at fields l j name at small in
    add_lines_at lines (add_line fields l) j name at (omega (arith, line)) ∙ omega (arith, line)

-- After `parse` of a file that opens, the entry of each field is the sum, modulo 2^32, of the
-- values of the lines whose first word is the field's name, whatever else the file holds and
-- whatever the entries were.
pub parse-sum :
    (lines : List (List ℕ)) (fields : ℕ → ℕ) (j : ℕ) (name : List ℕ)
    → get_elem? field_name j ≡ some name
    → parse (some lines) fields j ≡ sum name lines % 2 ^ 32
unfolding parse
parse-sum lines fields j name at =
    let zero_start : 0 + sum name lines ≡ sum name lines = omega arith in
    add_lines_at lines (λ k. 0) j name at (omega arith) ∙ ap (λ n. n % 2 ^ 32) zero_start

-- After `parse` of a file that opens, `get_rss_basic` prints the name "Rss:" and the sum, modulo
-- 2^32, of the values of the lines whose first word is that name.
get_rss_basic-sum :
    (lines : List (List ℕ)) (fields : ℕ → ℕ)
    → get_rss_basic (some lines) fields ≡ (some (codes "Rss:"), sum (codes "Rss:") lines % 2 ^ 32)
unfolding get_rss_basic index
get_rss_basic-sum lines fields =
    ap (λ n. (some (codes "Rss:"), n)) (parse-sum lines fields 3 (codes "Rss:") refl)
