-- ===== src/SortSpeed/Avx2/Insertion.antt =====
-- `avx2_remain_sorts` sorts.
use mbench.Prelude.{
  ℕ, zero, suc, ◌+◌, ◌-◌, ◌≤◌, ◌<◌, ◌≡◌, inr, refl, sym, ap, ◌∙◌, Bool, true, false, List, [], ◌∷◌,
  ◌++◌, All, Mem, store, store_self, store-ne, if◌then◌else◌, ltb, ltb→lt, ltb→le, dec_lt, arith,
}
use mbench.SortSpeed.Items.{
  tally, tally-append, SameItems, Ascending, Ascending-append, All-SameItems, All-append, All-map,
}
use mbench.SortSpeed.Windows.{Outside, cells, cells-congr, cells-append}
use mbench.SortSpeed.Joins.{Sorts, few-Sorts, SameItems-Sorts, same_range}
use mbench.SortSpeed.Avx2.{signed, insert, insert_from, avx2_remain_sorts}

-- A list that ascends with a last element behind it.
last_split :
    (f : ℕ → ℕ) (xs : List ℕ) (y : ℕ)
    → Ascending f (xs ++ (y ∷ []))
    → Ascending f xs × All (λ x. f x ≤ f y) xs
last_split f [] y up = (tt, tt)
last_split f (x ∷ xs) y (here, up) =
    let (up', low) = last_split f xs y up in
    let (init, at_y) = All_last (λ z. f x ≤ f z) xs y here in ((init, up'), (at_y, low))
  where
    All_last : (P : ℕ → Type 0) (zs : List ℕ) (y : ℕ) → All P (zs ++ (y ∷ [])) → All P zs × P y
    All_last P [] y (h, rest) = (tt, h)
    All_last P (z ∷ zs) y (h, rest) = let (init, at_y) = All_last P zs y rest in ((h, init), at_y)

cells_last : (m : Mem) (a n : ℕ) → cells m a (suc n) ≡ cells m a n ++ (m (a + n) ∷ [])
cells_last m a n = let e : suc n ≡ n + 1 = omega arith in ap (cells m a) e ∙ cells-append m a n 1

pub insert-other : (d tmp j : ℕ) (m : Mem) (b : ℕ) → Outside b d (suc j) → insert d tmp j m b ≡ m b
unfolding insert
insert-other d tmp zero m b out = store-ne m d tmp b (λ e. ground arith)
insert-other d tmp (suc j) m b out =
    let m' = store m (d + suc j) (m (d + j)) in
    let rest = insert-other d tmp j m' b (ground arith) in
    let moved = store-ne m (d + suc j) (m (d + j)) b (λ e. ground arith) in
    let placed = store-ne m (d + suc j) tmp b (λ e. ground arith) in
    by_test (ltb (signed tmp) (signed (m (d + j)))) (rest ∙ moved) placed
  where
    by_test :
        (t : Bool)
        → insert d tmp j (store m (d + suc j) (m (d + j))) b ≡ m b
        → store m (d + suc j) tmp b ≡ m b
        → (if t then insert d tmp j (store m (d + suc j) (m (d + j))) else store m (d + suc j) tmp)
            b
          ≡ m b
    by_test true e e' = e
    by_test false e e' = e'

-- `ys` are the elements `xs`, in order, with `tmp` among them.
abbrev Inserted : ℕ → List ℕ → List ℕ → Type 0
Inserted tmp xs ys = SameItems ys (tmp ∷ xs) × Ascending signed ys

same_elements :
    (tmp : ℕ) (xs xs' ys ys' : List ℕ)
    → xs ≡ xs'
    → ys ≡ ys'
    → Inserted tmp xs' ys'
    → Inserted tmp xs ys
same_elements tmp xs xs' ys ys' e e' inserted = rw (e, e') inserted

-- `tmp` goes behind the elements.
behind :
    (tmp : ℕ) (xs : List ℕ)
    → Ascending signed xs
    → All (λ x. signed x ≤ signed tmp) xs
    → Inserted tmp xs (xs ++ (tmp ∷ []))
behind tmp xs up low = (
  (λ p. let e = tally-append p xs (tmp ∷ []) in omega (arith, e)),
  Ascending-append signed xs (tmp ∷ []) up (tt, tt) (All-map (λ x le. (le, tt)) xs low),
)

-- The last element moves up, and `tmp` goes before it.
before :
    (tmp y : ℕ) (xs ys : List ℕ)
    → Ascending signed (xs ++ (y ∷ []))
    → signed tmp ≤ signed y
    → Inserted tmp xs ys
    → Inserted tmp (xs ++ (y ∷ [])) (ys ++ (y ∷ []))
before tmp y xs ys up less (same, up') =
    let (init, low) = last_split signed xs y up in
    let low' = All-SameItems (λ x. signed x ≤ signed y) ys (tmp ∷ xs) same (less, low) in
    (
      (λ p.
          let e = same p in
          let e' = tally-append p xs (y ∷ []) in
          let e'' = tally-append p ys (y ∷ []) in omega (arith, e, e', e'')),
      Ascending-append signed ys (y ∷ []) up' (tt, tt) (All-map (λ x le. (le, tt)) ys low'),
    )

appended_last :
    (d tmp j : ℕ) (m : Mem) → cells (store m (d + j) tmp) d (suc j) ≡ cells m d j ++ (tmp ∷ [])
appended_last d tmp j m =
    let kept =
      cells-congr (store m (d + j) tmp) m d d j
        λ i lt. store-ne m (d + j) tmp (d + i) (λ e. omega (arith, e)) in
    let e = cells_last (store m (d + j) tmp) d j in let here = store_self m (d + j) tmp in cc

Ascending-cast : (xs ys : List ℕ) → xs ≡ ys → Ascending signed xs → Ascending signed ys
Ascending-cast xs ys e up = rw (sym e) up

insert-Inserted :
    (d tmp j : ℕ) (m : Mem)
    → Ascending signed (cells m d j)
    → Inserted tmp (cells m d j) (cells (insert d tmp j m) d (suc j))
unfolding insert
insert-Inserted d tmp zero m up =
    same_elements tmp [] [] (cells (store m d tmp) d 1) (tmp ∷ []) refl
      (ap (λ y. y ∷ []) (store_self m d tmp)) (behind tmp [] tt tt)
insert-Inserted d tmp (suc j) m up =
    by_test (ltb (signed tmp) (signed (m (d + j)))) refl (
      insert-Inserted d tmp j m' (Ascending-cast (cells m d j) (cells m' d j) (sym kept) init_up.0))
  where
    m' : Mem
    m' = store m (d + suc j) (m (d + j))

    kept : cells m' d j ≡ cells m d j
    kept =
        cells-congr m' m d d j
          λ i lt. store-ne m (d + suc j) (m (d + j)) (d + i) (λ e. omega (arith, e))

    split : Ascending signed (cells m d j ++ (m (d + j) ∷ []))
    split = Ascending-cast (cells m d (suc j)) _ (cells_last m d j) up

    init_up :
        Ascending signed (cells m d j) × All (λ x. signed x ≤ signed (m (d + j))) (cells m d j)
    init_up = last_split signed (cells m d j) (m (d + j)) split

    moved : insert d tmp j m' (d + suc j) ≡ m (d + j)
    moved =
        insert-other d tmp j m' (d + suc j) (inr (omega arith))
        ∙ store_self m (d + suc j) (m (d + j))

    by_test :
        (t : Bool)
        → ltb (signed tmp) (signed (m (d + j))) ≡ t
        → Inserted tmp (cells m' d j) (cells (insert d tmp j m') d (suc j))
        → Inserted tmp
            (cells m d (suc j))
            (cells (if t then insert d tmp j m' else store m (d + suc j) tmp) d (suc (suc j)))
    by_test true e rest =
        let ys = cells (insert d tmp j m') d (suc j) in
        same_elements tmp (cells m d (suc j)) (cells m d j ++ (m (d + j) ∷ []))
          (cells (insert d tmp j m') d (suc (suc j))) (ys ++ (m (d + j) ∷ [])) (cells_last m d j)
          (cells_last (insert d tmp j m') d (suc j) ∙ ap (λ y. ys ++ (y ∷ [])) moved)
          (before tmp (m (d + j)) (cells m d j) ys split
            (let lt = ltb→lt (signed tmp) (signed (m (d + j))) e in omega arith)
            (same_elements tmp (cells m d j) (cells m' d j) ys ys (sym kept) refl rest))
    by_test false e rest =
        let le = ltb→le (signed tmp) (signed (m (d + j))) e in
        let xs = cells m d j ++ (m (d + j) ∷ []) in
        same_elements tmp (cells m d (suc j)) xs (cells (store m (d + suc j) tmp) d (suc (suc j)))
          (xs ++ (tmp ∷ [])) (cells_last m d j)
          (appended_last d tmp (suc j) m ∙ ap (λ zs. zs ++ (tmp ∷ [])) (cells_last m d j))
          (behind tmp xs split (
            All-append (λ x. signed x ≤ signed tmp) (cells m d j) (m (d + j) ∷ [])
              (All-map (λ x le'. omega (arith, le, le')) (cells m d j) init_up.1) (le, tt)))

insert-SameItems :
    (d i n : ℕ) (m : Mem)
    → Ascending signed (cells m d i)
    → SameItems (cells (insert d (m (d + i)) i m) d (suc i + n)) (cells m d (suc i + n))
insert-SameItems d i n m up p =
    let (same, up') = insert-Inserted d (m (d + i)) i m up in
    let m' = insert d (m (d + i)) i m in
    let e =
      ap (tally p) (cells-append m' d (suc i) n)
      ∙ tally-append p (cells m' d (suc i)) (cells m' (d + suc i) n) in
    let e' =
      ap (tally p) (cells-append m d (suc i) n)
      ∙ tally-append p (cells m d (suc i)) (cells m (d + suc i) n) in
    let e'' = ap (tally p) (cells_last m d i) ∙ tally-append p (cells m d i) (m (d + i) ∷ []) in
    let kept = ap (tally p) (
      cells-congr m' m (d + suc i) (d + suc i) n
        λ j lt. insert-other d (m (d + i)) i m (d + suc i + j) (inr (omega arith))) in
    omega (arith, e, e', e'', kept, same p)

insert_from-Sorts :
    (d i n : ℕ) (m : Mem)
    → Ascending signed (cells m d i)
    → Sorts signed m (insert_from d i n m) d (i + n)
unfolding insert_from
insert_from-Sorts d i zero m up =
    let e : i + 0 ≡ i = omega arith in
    record {
      same = λ p. refl;
      up = Ascending-cast (cells m d i) (cells m d (i + 0)) (ap (cells m d) (sym e)) up;
      frame = λ b out. refl;
    }
insert_from-Sorts d i (suc n) m up =
    let m' = insert d (m (d + i)) i m in
    let sorted = insert_from d (suc i) n m' in
    let e : suc i + n ≡ i + suc n = omega arith in
    same_range signed m sorted sorted d d (suc i + n) (i + suc n) refl e refl (
      SameItems-Sorts signed m m' sorted d (suc i + n) (insert-SameItems d i n m up)
        (λ b out. insert-other d (m (d + i)) i m b (ground arith))
        (insert_from-Sorts d (suc i) n m' (insert-Inserted d (m (d + i)) i m up).1))

avx2_remain_sorts-stops : (d n : ℕ) (m : Mem) → n ≤ 1 → m ≡ avx2_remain_sorts d n m
unfolding avx2_remain_sorts
avx2_remain_sorts-stops d n m le = ground arith

avx2_remain_sorts-runs :
    (d n : ℕ) (m : Mem) → 1 < n → insert_from d 1 (n - 1) m ≡ avx2_remain_sorts d n m
unfolding avx2_remain_sorts
avx2_remain_sorts-runs d n m lt = ground arith

-- `avx2_remain_sorts` rearranges the `n` elements from `d` on so that they ascend as signed
-- numbers, and changes no other element.
pub avx2_remain_sorts-Sorts : (d n : ℕ) (m : Mem) → Sorts signed m (avx2_remain_sorts d n m) d n
avx2_remain_sorts-Sorts d n m = elim (dec_lt 1 n) [
  | yes lt ↦
      let e : 1 + (n - 1) ≡ n = omega (arith, lt) in
      same_range signed m (insert_from d 1 (n - 1) m) (avx2_remain_sorts d n m) d d (1 + (n - 1)) n
        refl e (avx2_remain_sorts-runs d n m lt) (insert_from-Sorts d 1 (n - 1) m (tt, tt))
  | no few ↦
      same_range signed m m (avx2_remain_sorts d n m) d d n n refl refl
        (avx2_remain_sorts-stops d n m (omega (arith, few)))
        (few-Sorts signed m d n (omega (arith, few)))
]
