-- ===== src/SortSpeed/Items.antt =====
-- Lists of values as the sorts of sortSpeed/ see them: how often a value occurs, and whether the
-- values ascend.
use mbench.Prelude.{
  ℕ, ◌+◌, ◌≤◌, ◌<◌, ◌≡◌, refl, ap, Bool, true, false, List, [], ◌∷◌, ◌++◌, All, length,
  if◌then◌else◌, ◌==◌, ==_iff, sym, arith,
}

-- How many elements pass the test.
abbrev pub tally : (ℕ → Bool) → List ℕ → ℕ
tally p [] = 0
tally p (x ∷ xs) = (if p x then 1 else 0) + tally p xs

-- No test counts more in one list than in the other: one is a rearrangement of the other.
abbrev pub SameItems : List ℕ → List ℕ → Type 0
SameItems xs ys = (p : ℕ → Bool) → tally p xs ≡ tally p ys

-- `measure x ≤ measure y` for every `x` that stands before a `y`.
abbrev pub Ascending : (ℕ → ℕ) → List ℕ → Type 0
Ascending measure [] = Unit
Ascending measure (x ∷ xs) = All (λ y. measure x ≤ measure y) xs × Ascending measure xs

-- The elements that pass the test, in their order.
abbrev pub filter : (ℕ → Bool) → List ℕ → List ℕ
filter p [] = []
filter p (x ∷ xs) = if p x then x ∷ filter p xs else filter p xs

pub tally-append : (p : ℕ → Bool) (xs ys : List ℕ) → tally p (xs ++ ys) ≡ tally p xs + tally p ys
tally-append p [] ys = omega arith
tally-append p (x ∷ xs) ys = omega (arith, tally-append p xs ys)

pub tally-le : (p : ℕ → Bool) (xs : List ℕ) → tally p xs ≤ length xs
tally-le p [] = omega arith
tally-le p (x ∷ xs) = let below = tally-le p xs in ground arith

pub length-filter : (p : ℕ → Bool) (xs : List ℕ) → length (filter p xs) ≡ tally p xs
length-filter p [] = refl
length-filter p (x ∷ xs) = by_test (p x) (length-filter p xs)
  where
    by_test :
        (b : Bool)
        → length (filter p xs) ≡ tally p xs
        → length (if b then x ∷ filter p xs else filter p xs) ≡ (if b then 1 else 0) + tally p xs
    by_test true e = omega (arith, e)
    by_test false e = omega (arith, e)

module _ {ℓ κ} {A : Type ℓ} {P Q : A → Type κ} where
  pub All-map : ((x : A) → P x → Q x) → (xs : List A) → All P xs → All Q xs
  All-map f [] all = tt
  All-map f (x ∷ xs) (here, rest) = (f x here, All-map f xs rest)

pub All-append : (P : ℕ → Type 0) (xs ys : List ℕ) → All P xs → All P ys → All P (xs ++ ys)
All-append P [] ys all other = other
All-append P (x ∷ xs) ys (here, rest) other = (here, All-append P xs ys rest other)

-- What passes the test, and has `P` where it stands in the list.
pub All-filter :
    (P : ℕ → Type 0) (p : ℕ → Bool) (xs : List ℕ)
    → All P xs
    → All (λ x. (p x ≡ true) × P x) (filter p xs)
All-filter P p [] all = tt
All-filter P p (x ∷ xs) (here, rest) = by_test (p x) refl (All-filter P p xs rest)
  where
    by_test :
        (b : Bool)
        → p x ≡ b
        → All (λ y. (p y ≡ true) × P y) (filter p xs)
        → All (λ y. (p y ≡ true) × P y) (if b then x ∷ filter p xs else filter p xs)
    by_test true e others = ((e, here), others)
    by_test false e others = others

pub Ascending-append :
    (f : ℕ → ℕ) (xs ys : List ℕ)
    → Ascending f xs
    → Ascending f ys
    → All (λ x. All (λ y. f x ≤ f y) ys) xs
    → Ascending f (xs ++ ys)
Ascending-append f [] ys up other below = other
Ascending-append f (x ∷ xs) ys (here, up) other (least, below) =
    (All-append (λ y. f x ≤ f y) xs ys here least, Ascending-append f xs ys up other below)

pub Ascending-congr :
    (f g : ℕ → ℕ) (xs : List ℕ) → All (λ x. f x ≡ g x) xs → Ascending f xs → Ascending g xs
Ascending-congr f g [] same up = tt
Ascending-congr f g (x ∷ xs) (e, same) (here, up) =
    (heads xs same here, Ascending-congr f g xs same up)
  where
    heads :
        (ys : List ℕ) → All (λ y. f y ≡ g y) ys → All (λ y. f x ≤ f y) ys → All (λ y. g x ≤ g y) ys
    heads [] same here = tt
    heads (y ∷ ys) (e', same) (le, here) = (omega (arith, e, e', le), heads ys same here)

-- What holds of all elements holds of a value that occurs, and the other way round.
pub All-tally : (P : ℕ → Type 0) (v : ℕ) (xs : List ℕ) → All P xs → 0 < tally (λ x. x == v) xs → P v
All-tally P v [] all lt = absurd (omega arith)
All-tally P v (x ∷ xs) (here, rest) lt = by_test (x == v) refl (All-tally P v xs rest) lt
  where
    by_test :
        (b : Bool)
        → (x == v) ≡ b
        → (0 < tally (λ y. y == v) xs → P v)
        → 0 < (if b then 1 else 0) + tally (λ y. y == v) xs
        → P v
    by_test true e later lt' = rw (sym ((==_iff x v).0 e)) here
    by_test false e later lt' = later (omega arith)

tally-All : (P : ℕ → Type 0) (xs : List ℕ) → ((v : ℕ) → 0 < tally (λ x. x == v) xs → P v) → All P xs
tally-All P [] all = tt
tally-All P (x ∷ xs) all = (all x (ground arith), tally-All P xs λ v lt. all v (omega arith))

pub All-SameItems : (P : ℕ → Type 0) (xs ys : List ℕ) → SameItems xs ys → All P ys → All P xs
All-SameItems P xs ys same all =
    tally-All P xs λ v lt. All-tally P v ys all (omega (arith, lt, same (λ x. x == v)))

-- Two ascending lists with the same items are one list.
pub Ascending-unique :
    (xs ys : List ℕ) → Ascending (λ x. x) xs → Ascending (λ x. x) ys → SameItems xs ys → xs ≡ ys
Ascending-unique [] [] up up' same = refl
Ascending-unique [] (y ∷ ys) up up' same = absurd (omega (arith, same (λ x. true)))
Ascending-unique (x ∷ xs) [] up up' same = absurd (omega (arith, same (λ x. true)))
Ascending-unique (x ∷ xs) (y ∷ ys) (here, up) (here', up') same =
    let below =
      All-tally (λ v. x ≤ v) y (x ∷ xs) (omega arith, here)
        (let e = same (λ v. v == y) in ground arith) in
    let below' =
      All-tally (λ v. y ≤ v) x (y ∷ ys) (omega arith, here')
        (let e = same (λ v. v == x) in ground arith) in
    let heads : x ≡ y = omega (arith, below, below') in
    let tails =
      Ascending-unique xs ys up up'
        λ p. let e = same p in let e' = ap (λ v. tally p (v ∷ [])) heads in omega (arith, e, e') in
    cc
