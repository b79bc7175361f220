-- ===== src/SortSpeed/Radix/Distributing.antt =====
-- The loops of `radix_sort` that distribute the elements: each leaves the buckets of its source
-- behind one another.
use mbench.Prelude.{
  ℕ, zero, suc, ◌+◌, ◌^◌, ◌≤◌, ◌<◌, ◌≡◌, ◌≢◌, ◌⊎◌, refl, sym, ap, ◌∙◌, Bool, true, false, List, ◌∷◌,
  Mem, store, store-ne, if◌then◌else◌, ◌==◌, dec_lt, arith,
}
use mbench.SortSpeed.Windows.{Outside, cells, cells-congr, cells-append, length-cells}
use mbench.SortSpeed.Buckets.{bucket, buckets, with_key, below, below_mono, below_keys}
use mbench.SortSpeed.Radix.{place, distribute}

module _ (key : ℕ → ℕ) (keys : ℕ) (bounded : (x : ℕ) → key x < keys) (tbl dst top : ℕ)
    (apart : (dst + top ≤ tbl) ⊎ (tbl + keys ≤ dst)) (small : top < 2 ^ 32) where
  -- The counters leave room for the elements: what goes to one key stays before the next.
  pub record Room (m : Mem) (xs : List ℕ) : Type 0 where
    next : (k j : ℕ) → k < j → j < keys → m (tbl + k) + with_key key xs k ≤ m (tbl + j)
    last : (k : ℕ) → k < keys → m (tbl + k) + with_key key xs k ≤ top

  -- The addresses that are read: neither the counters nor the destination is among them.
  abbrev pub Source : ℕ → ℕ → Type 0
  Source src n = (b : ℕ) → src ≤ b → b < src + n → Outside b tbl keys × Outside b dst top

  place-other :
      (src a : ℕ) (m : Mem)
      → dst + m (tbl + key (m src)) ≢ a
      → tbl + key (m src) ≢ a
      → place key tbl dst src m a ≡ m a
  unfolding place
  place-other src a m ne ne' =
      store-ne (store m (dst + m (tbl + key (m src))) (m src)) (tbl + key (m src)) _ a ne'
      ∙ store-ne m (dst + m (tbl + key (m src))) (m src) a ne

  place-counter :
      (src j : ℕ) (m : Mem)
      → j < keys
      → m (tbl + key (m src)) < top
      → place key tbl dst src m (tbl + j) ≡ (if key (m src) == j then 1 else 0) + m (tbl + j)
  unfolding place
  place-counter src j m lt room = let b = bounded (m src) in grind arith

  place-element :
      (src : ℕ) (m : Mem)
      → m (tbl + key (m src)) < top
      → place key tbl dst src m (dst + m (tbl + key (m src))) ≡ m src
  unfolding place
  place-element src m room = let b = bounded (m src) in grind arith

  here_lt : (src n : ℕ) (m : Mem) → Room m (cells m src (suc n)) → m (tbl + key (m src)) < top
  here_lt src n m room = let le = room.last (key (m src)) (bounded (m src)) in grind arith

  place-Source :
      (src n : ℕ) (m : Mem)
      → Source src (suc n)
      → m (tbl + key (m src)) < top
      → cells (place key tbl dst src m) (suc src) n ≡ cells m (suc src) n
  place-Source src n m source lt = cells-congr _ m (suc src) (suc src) n λ i lt'.
      let (out, out') = source (suc src + i) (omega arith) (omega arith) in
      let b = bounded (m src) in
      place-other src (suc src + i) m (λ e. ground arith) (λ e. ground arith)

  place-with_key :
      (src n : ℕ) (m : Mem)
      → Source src (suc n)
      → m (tbl + key (m src)) < top
      → (k : ℕ)
      → with_key key (cells (place key tbl dst src m) (suc src) n) k
        ≡ with_key key (cells m (suc src) n) k
  place-with_key src n m source lt k = ap (λ xs. with_key key xs k) (place-Source src n m source lt)

  place-Room :
      (src n : ℕ) (m : Mem)
      → Source src (suc n)
      → Room m (cells m src (suc n))
      → Room (place key tbl dst src m) (cells (place key tbl dst src m) (suc src) n)
  place-Room src n m source room =
      let lt = here_lt src n m room in
      record {
        next = λ k j lt' lt''. omega (
          arith,
          place-with_key src n m source lt k,
          room.next k j lt' lt'',
          place-counter src k m (omega arith) lt,
          place-counter src j m lt'' lt,
        );
        last = λ k lt'. omega (
          arith,
          place-with_key src n m source lt k,
          room.last k lt',
          place-counter src k m lt' lt,
        );
      }

  -- An address outside the counters that no bucket covers.
  abbrev pub Spared : Mem → List ℕ → ℕ → Type 0
  Spared m xs a =
      Outside a tbl keys × ((k : ℕ) → k < keys → Outside a (dst + m (tbl + k)) (with_key key xs k))

  pub distribute-other :
      (src n : ℕ) (m : Mem)
      → Source src n
      → Room m (cells m src n)
      → (a : ℕ) → Spared m (cells m src n) a
      → distribute key tbl dst src n m a ≡ m a
  unfolding distribute
  distribute-other src zero m source room a spared = refl
  distribute-other src (suc n) m source room a (out, spared) =
      let lt = here_lt src n m room in
      let b = bounded (m src) in
      let here = spared (key (m src)) b in
      distribute-other (suc src) n (place key tbl dst src m)
        (λ c le lt'. source c (omega arith) (omega arith)) (place-Room src n m source room) a
        (
          out,
          λ k lt'.
              let sp = spared k lt' in
              let e = place-with_key src n m source lt k in
              let e' = place-counter src k m lt' lt in grind arith,
        )
      ∙ place-other src a m (λ e. grind arith) (λ e. ground arith)

  -- No later element goes where the first one went.
  place-Spared :
      (src n : ℕ) (m : Mem)
      → Source src (suc n)
      → Room m (cells m src (suc n))
      → Spared
          (place key tbl dst src m)
          (cells (place key tbl dst src m) (suc src) n)
          (dst + m (tbl + key (m src)))
  place-Spared src n m source room =
      let fits = here_lt src n m room in
      let b = bounded (m src) in
      (
        ground arith,
        λ k lt.
            let e = place-with_key src n m source fits k in
            let e' = place-counter src k m lt fits in
            elim (dec_lt k (key (m src))) [
              | yes lt' ↦ let le = room.next k (key (m src)) lt' b in grind arith
              | no ge ↦ elim (dec_lt (key (m src)) k) [
                | yes gt ↦ let le = room.next (key (m src)) k gt lt in grind arith
                | no le ↦ grind arith
              ]
            ],
      )

  -- Each bucket stands where its counter pointed.
  pub distribute-bucket :
      (src n : ℕ) (m : Mem)
      → Source src n
      → Room m (cells m src n)
      → (k : ℕ) → k < keys
      → cells (distribute key tbl dst src n m) (dst + m (tbl + k)) (with_key key (cells m src n) k)
        ≡ bucket key k (cells m src n)
  unfolding distribute
  distribute-bucket src zero m source room k lt = refl
  distribute-bucket src (suc n) m source room k lt =
      by_key (key (m src) == k) refl (distribute-bucket (suc src) n m' source' room' k lt) λ e.
        ap (distribute key tbl dst (suc src) n m') (at_key e)
        ∙ distribute-other (suc src) n m' source' room' (dst + m (tbl + key (m src))) spared
        ∙ place-element src m fits
    where
      m' : Mem
      m' = place key tbl dst src m

      fits : m (tbl + key (m src)) < top
      fits = here_lt src n m room

      source' : Source (suc src) n
      source' c le lt' = source c (omega arith) (omega arith)

      room' : Room m' (cells m' (suc src) n)
      room' = place-Room src n m source room

      at_key : (key (m src) == k) ≡ true → dst + m (tbl + k) ≡ dst + m (tbl + key (m src))
      at_key e = grind arith

      spared : Spared m' (cells m' (suc src) n) (dst + m (tbl + key (m src)))
      spared = place-Spared src n m source room

      by_key :
          (b : Bool)
          → (key (m src) == k) ≡ b
          → cells
              (distribute key tbl dst (suc src) n m')
              (dst + m' (tbl + k))
              (with_key key (cells m' (suc src) n) k)
            ≡ bucket key k (cells m' (suc src) n)
          → ((key (m src) == k) ≡ true
              → distribute key tbl dst (suc src) n m' (dst + m (tbl + k)) ≡ m src)
          → cells
              (distribute key tbl dst (suc src) n m')
              (dst + m (tbl + k))
              ((if b then 1 else 0) + with_key key (cells m (suc src) n) k)
            ≡ (if b
                then m src ∷ bucket key k (cells m (suc src) n)
                else bucket key k (cells m (suc src) n))
      by_key true e rest here =
          let first = here e in
          let same = place-Source src n m source fits in
          let counter = place-counter src k m lt fits in grind arith
      by_key false e rest here =
          let same = place-Source src n m source fits in
          let counter = place-counter src k m lt fits in grind arith

  sorted_up :
      (src n : ℕ) (m : Mem)
      → Source src n
      → Room m (cells m src n)
      → ((k : ℕ) → k < keys → m (tbl + k) ≡ below key (cells m src n) k)
      → (k : ℕ) → k ≤ keys
      → cells (distribute key tbl dst src n m) dst (below key (cells m src n) k)
        ≡ buckets key k (cells m src n)
  sorted_up src n m source room counters zero le = refl
  sorted_up src n m source room counters (suc k) le =
      let lower = sorted_up src n m source room counters k (omega arith) in
      let here = distribute-bucket src n m source room k (omega arith) in
      let counter = counters k (omega arith) in
      cells-append (distribute key tbl dst src n m) dst (below key (cells m src n) k)
        (with_key key (cells m src n) k)
      ∙ (grind arith)

module _ (key : ℕ → ℕ) (keys : ℕ) (bounded : (x : ℕ) → key x < keys) (tbl dst src n : ℕ) (m : Mem)
    (apart : (dst + n ≤ tbl) ⊎ (tbl + keys ≤ dst)) (small : n < 2 ^ 32)
    (source : Source key keys bounded tbl dst n apart small src n)
    (counters : (k : ℕ) → k < keys → m (tbl + k) ≡ below key (cells m src n) k) where
  counters-Room : Room key keys bounded tbl dst n apart small m (cells m src n)
  counters-Room = record {
    next = λ k j lt lt'.
        let up = below_mono key (cells m src n) (suc k) j lt in
        omega (arith, up, counters k (omega arith), counters j lt');
    last = λ k lt.
        let up = below_mono key (cells m src n) (suc k) keys lt in
        omega (
          arith,
          up,
          counters k lt,
          below_keys key keys bounded (cells m src n),
          length-cells m src n,
        );
  }

  -- The loop leaves in the destination what a pass makes of the elements.
  pub distribute-buckets :
      cells (distribute key tbl dst src n m) dst n ≡ buckets key keys (cells m src n)
  distribute-buckets =
      ap (cells (distribute key tbl dst src n m) dst)
        (sym (below_keys key keys bounded (cells m src n) ∙ length-cells m src n))
      ∙ sorted_up key keys bounded tbl dst n apart small src n m source counters-Room counters keys
          (omega arith)

  -- It changes no word but the counters and the destination.
  pub distribute-frame :
      (a : ℕ) → Outside a tbl keys → Outside a dst n → distribute key tbl dst src n m a ≡ m a
  distribute-frame a out out' =
      distribute-other key keys bounded tbl dst n apart small src n m source counters-Room a
        (out, λ k lt. let room = counters-Room.last k lt in ground arith)
