-- ===== src/MemLat/Setup/Invariant.antt =====
-- The invariant of the loop of `setup_rnd`: the segments that point somewhere are a chain from
-- `addr` to `pos`, and all others are clear.
use mbench.Prelude.{
  ℕ, ◌+◌, ◌*◌, ◌/◌, ◌%◌, ◌^◌, ◌≤◌, ◌<◌, ◌≡◌, refl, sym, ap, ◌∙◌, ◌≢◌, ◌⊎◌, inl, inr, Bool, true,
  false, Option, some, List, [], ◌∷◌, arith, dec_lt, ℕ_discrete, length, All, Avoids, Distinct, ltb,
  ◌==◌, if◌then◌else◌, inc64, Bool-cases, ==_iff, ltb→lt, eq_of_some, Mem, store, store_self,
  store-ne, total, total-change, total-le,
}
use mathlib.Core.Path.{subst, subst₂}
use native.Mathlib.Nat.{mod-lt, add_assoc, add-zero}
use mbench.Ring.{Linked, Linked-store}
use mbench.MemLat.Setup.{State, Round, break, go, target, attempt, fill, self_pick, self_picks}

-- 1 for a word that is set.
abbrev pub mark : ℕ → ℕ
mark w = if w == 0 then 0 else 1

pub mark-pos : (w : ℕ) → 0 < w → mark w ≡ 1
mark-pos w h = ground arith

-- An address that begins a segment.
abbrev pub Cell : ℕ → ℕ → ℕ → ℕ → Type 0
Cell addr size seg_size a = (i : ℕ) × (i < size / seg_size) × (a ≡ addr + i * seg_size)

-- How many segments have a first word that is set.
abbrev pub used : ℕ → ℕ → ℕ → Mem → ℕ
used addr size seg_size m = total (size / seg_size) (λ i. mark (m (addr + i * seg_size)))

pub record Inv (addr size seg_size : ℕ) (s : State) (ys : List ℕ) (k : ℕ) : Type 0 where
  pub cells : All (Cell addr size seg_size) (s.pos ∷ ys)
  pub fresh : Distinct (s.pos ∷ ys)
  pub linked : Linked s.mem addr s.pos ys
  pub tip : (s.mem s.pos ≡ 0) ⊎ (s.mem s.pos ≡ s.pos)
  pub clean : (a : ℕ) → Cell addr size seg_size a → Avoids a (s.pos ∷ ys) → s.mem a ≡ 0
  pub filled : used addr size seg_size s.mem ≡ length ys + mark (s.mem s.pos)
  pub counted : length ys + k ≡ s.n_done

module _ (addr seg_size : ℕ) (wide : 8 ≤ seg_size) where
  mul-injective : (i j : ℕ) → i * seg_size ≡ j * seg_size → i ≡ j
  mul-injective i j h = elim (dec_lt i j) [ yes p ↦ absurd (grind arith) | no p ↦ grind arith ]

module _ (addr size seg_size : ℕ) (placed : 0 < addr) (wide : 8 ≤ seg_size) where
  pub Cell-pos : (a : ℕ) → Cell addr size seg_size a → 0 < a
  Cell-pos a (i, lt, e) = omega arith

  -- A clear cell is not one that the chain has left.
  clear-Avoids :
      (m : Mem) (t x : ℕ) (ys : List ℕ)
      → m t ≡ 0
      → All (Cell addr size seg_size) (x ∷ ys)
      → Linked m addr x ys
      → Avoids t ys
  clear-Avoids m t x [] z c l = tt
  clear-Avoids m t x (y ∷ ys) z c l =
      (λ e. absurd (omega (arith, Cell-pos x c.0, l.0, z, ap m e)), clear-Avoids m t y ys z c.1 l.1)

  -- Setting the first word of a segment marks it and changes no other.
  used-store_at :
      (m : Mem) (v i : ℕ)
      → i < size / seg_size
      → 0 < v
      → used addr size seg_size (store m (addr + i * seg_size) v) + mark (m (addr + i * seg_size))
        ≡ used addr size seg_size m + 1
  used-store_at m v i lt nz = omega (
    arith,
    total-change (size / seg_size)
        (λ j. mark (store m (addr + i * seg_size) v (addr + j * seg_size)))
        (λ j. mark (m (addr + j * seg_size))) i lt
        (λ j ne. ap mark (
          store-ne m (addr + i * seg_size) v (addr + j * seg_size)
            (λ e. ne (mul-injective addr seg_size wide j i (omega arith))))),
    marked,
  )
    where
      marked : mark (store m (addr + i * seg_size) v (addr + i * seg_size)) ≡ 1
      marked = ground arith

  pub used-store :
      (m : Mem) (p v : ℕ)
      → Cell addr size seg_size p
      → 0 < v
      → used addr size seg_size (store m p v) + mark (m p) ≡ used addr size seg_size m + 1
  used-store m p v (i, lt, e) nz =
      subst
        (λ q. used addr size seg_size (store m q v) + mark (m q) ≡ used addr size seg_size m + 1)
        (sym e) (used-store_at m v i lt nz)

  pub used-le : (m : Mem) → used addr size seg_size m ≤ size / seg_size
  used-le m = total-le (size / seg_size) _ (λ i. ground arith)

pub go-injective : {s t : State} → go s ≡ go t → s ≡ t
go-injective e = cc

pub break-ne-go : {s : State} → break ≢ go s
break-ne-go e = cc

pub Round-cases : (r : Round) → (r ≡ break) ⊎ ((s : State) × (r ≡ go s))
Round-cases break = inl refl
Round-cases (go s) = inr (s, refl)

-- One round and the whole loop keep the invariant.
module _ (stops : ℕ → Bool) (addr size seg_size : ℕ) (placed : 0 < addr) (wide : 8 ≤ seg_size)
    (some_segs : 0 < size / seg_size) (fits : size / seg_size < 2 ^ 64) where
  pub target-Cell : (r : ℕ) → Cell addr size seg_size (target stops addr size seg_size r)
  target-Cell r = (r % (size / seg_size), omega (arith, mod-lt r some_segs), refl)

  -- The segment that the chain ends at was picked.
  keep_self :
      (s : State) (ys : List ℕ) (k : ℕ)
      → Inv addr size seg_size s ys k
      → s.n_done < size / seg_size
      → s.mem s.pos ≡ 0
      → Inv addr size seg_size
          (record s { mem = store s.mem s.pos s.pos; n_done = inc64 s.n_done })
          ys
          (k + 1)
  keep_self s ys k inv lt z = record {
    cells = inv.cells;
    fresh = inv.fresh;
    linked = Linked-store s.mem addr s.pos s.pos s.pos ys inv.fresh.0 inv.linked;
    tip = inr (store_self s.mem s.pos s.pos);
    clean = λ a c d. store-ne s.mem s.pos s.pos a (λ e. d.0 (sym e)) ∙ inv.clean a c d;
    filled = omega (
      arith,
      used-store addr size seg_size placed wide s.mem s.pos s.pos inv.cells.0
          (Cell-pos addr size seg_size placed wide s.pos inv.cells.0),
      inv.filled,
      ap mark (store_self s.mem s.pos s.pos),
      mark-pos s.pos (Cell-pos addr size seg_size placed wide s.pos inv.cells.0),
    );
    counted = omega (arith, inv.counted);
  }

  -- A clear segment off the chain was picked.
  keep_link :
      (s : State) (ys : List ℕ) (k t : ℕ)
      → Inv addr size seg_size s ys k
      → s.n_done < size / seg_size
      → Cell addr size seg_size t
      → s.mem t ≡ 0
      → t ≢ s.pos
      → Inv addr size seg_size
          (record s { mem = store s.mem s.pos t; pos = t; n_done = inc64 s.n_done })
          (s.pos ∷ ys)
          k
  keep_link s ys k t inv lt c z ne = record {
    cells = (c, inv.cells);
    fresh = (
      (ne, clear-Avoids addr size seg_size placed wide s.mem t s.pos ys z inv.cells inv.linked),
      inv.fresh,
    );
    linked =
        (store_self s.mem s.pos t, Linked-store s.mem addr s.pos s.pos t ys inv.fresh.0 inv.linked);
    tip = inl (store-ne s.mem s.pos t t (λ e. ne (sym e)) ∙ z);
    clean = λ a ca d. store-ne s.mem s.pos t a (λ e. d.1.0 (sym e)) ∙ inv.clean a ca d.1;
    filled = omega (
      arith,
      used-store addr size seg_size placed wide s.mem s.pos t inv.cells.0
          (Cell-pos addr size seg_size placed wide t c),
      inv.filled,
      ap mark (store-ne s.mem s.pos t t (λ e. ne (sym e)) ∙ z),
    );
    counted = omega (arith, inv.counted);
  }

  -- A round that finds a clear segment `t`.
  picked-Inv :
      (s : State) (ys : List ℕ) (k t : ℕ)
      → Inv addr size seg_size s ys k
      → s.n_done < size / seg_size
      → Cell addr size seg_size t
      → s.mem t ≡ 0
      → (zs : List ℕ) × Inv addr size seg_size
          (record s { mem = store s.mem s.pos t; pos = t; n_done = inc64 s.n_done })
          zs
          (k + (if t == s.pos then 1 else 0))
  picked-Inv s ys k t inv lt c z = elim (ℕ_discrete t s.pos) [
    | yes here ↦ (
      ys,
      subst₂
          (λ q j.
            Inv addr size seg_size
              (record s { mem = store s.mem s.pos q; pos = q; n_done = inc64 s.n_done }) ys j)
          (sym here) (count here) (keep_self s ys k inv lt (rw here at z)),
    )
    | no ne ↦ (
      s.pos ∷ ys,
      subst
          (λ j.
            Inv addr size seg_size
              (record s { mem = store s.mem s.pos t; pos = t; n_done = inc64 s.n_done })
              (s.pos ∷ ys) j)
          (off ne) (keep_link s ys k t inv lt c z ne),
    )
  ]
    where
      count : t ≡ s.pos → k + 1 ≡ k + (if t == s.pos then 1 else 0)
      count e = ground arith

      off : t ≢ s.pos → k ≡ k + (if t == s.pos then 1 else 0)
      off ne = ground arith

  -- A conflict changes nothing but its count.
  conflict-Inv :
      (s : State) (ys : List ℕ) (k c : ℕ)
      → Inv addr size seg_size s ys k
      → Inv addr size seg_size (record s { n_conflict = c }) ys (k + 0)
  conflict-Inv s ys k c inv = record {
    cells = inv.cells;
    fresh = inv.fresh;
    linked = inv.linked;
    tip = inv.tip;
    clean = inv.clean;
    filled = inv.filled;
    counted = omega (arith, inv.counted);
  }

  -- One round that does not leave the loop.
  attempt-Inv :
      (s s' : State) (ys : List ℕ) (k rnd : ℕ)
      → Inv addr size seg_size s ys k
      → s.n_done < size / seg_size
      → attempt stops addr size seg_size s rnd ≡ go s'
      → (zs : List ℕ) × Inv addr size seg_size s' zs (k + self_pick stops addr size seg_size s rnd)
  unfolding attempt self_pick
  attempt-Inv s s' ys k rnd inv lt e =
      elim (Bool-cases (s.mem (target stops addr size seg_size rnd) == 0)) [
        | inl z ↦ rw z (
            subst
              (λ u.
                (zs : List ℕ) × Inv addr size seg_size u zs
                  (k + (if target stops addr size seg_size rnd == s.pos then 1 else 0)))
              (go-injective (rw z at e))
              (picked-Inv s ys k _ inv lt (target-Cell rnd) ((==_iff _ _).0 z)))
        | inr nz ↦ rw nz (conflict nz (Bool-cases (stops s.n_done)))
      ]
    where
      conflict :
          (s.mem (target stops addr size seg_size rnd) == 0) ≡ false
          → ((stops s.n_done) ≡ true) ⊎ ((stops s.n_done) ≡ false)
          → (zs : List ℕ) × Inv addr size seg_size s' zs (k + 0)
      conflict nz (inl stop) = absurd (break-ne-go (rw (nz, stop) at e))
      conflict nz (inr on) = (
        ys,
        subst (λ u. Inv addr size seg_size u ys (k + 0)) (go-injective (rw (nz, on) at e))
            (conflict-Inv s ys k _ inv),
      )

  -- The whole loop, however it ends.
  pub fill-Inv :
      (s t : State) (ys : List ℕ) (k : ℕ) (rnds : List ℕ)
      → Inv addr size seg_size s ys k
      → s.n_done < size / seg_size
      → fill stops addr size seg_size s rnds ≡ some t
      → (zs : List ℕ) × Inv addr size seg_size t zs (k + self_picks stops addr size seg_size s rnds)
  unfolding fill self_picks
  fill-Inv s t ys k [] inv lt e = absurd (cc)
  fill-Inv s t ys k (rnd ∷ rnds) inv lt e =
      elim (Round-cases (attempt stops addr size seg_size s rnd)) [
        | inl q ↦
            rw (q, self_picks)
              (
                ys,
                subst (λ u. Inv addr size seg_size u ys (k + 0)) (eq_of_some (rw (q, fill) at e))
                    (conflict-Inv s ys k s.n_conflict inv),
              )
        | inr (s', q) ↦
            rw (q, self_picks)
              (after (λ u zs j. fill-Inv u t zs j rnds) s' q (rw (q, fill) at e)
                (Bool-cases (ltb s'.n_done (size / seg_size))))
      ]
    where
      next : State → ℕ
      next s' =
          if ltb s'.n_done (size / seg_size) then self_picks stops addr size seg_size s' rnds else 0

      left : State → Option State
      left s' =
          if ltb s'.n_done (size / seg_size) then fill stops addr size seg_size s' rnds else some s'

      after :
          ((u : State) (zs : List ℕ) (j : ℕ)
            → Inv addr size seg_size u zs j
            → u.n_done < size / seg_size
            → fill stops addr size seg_size u rnds ≡ some t
            → (xs : List ℕ) × Inv addr size seg_size t xs
                (j + self_picks stops addr size seg_size u rnds))
          → (s' : State) → attempt stops addr size seg_size s rnd ≡ go s'
          → left s' ≡ some t
          → (ltb s'.n_done (size / seg_size) ≡ true) ⊎ (ltb s'.n_done (size / seg_size) ≡ false)
          → (zs : List ℕ) × Inv addr size seg_size t zs
              (k + (self_pick stops addr size seg_size s rnd + next s'))
      after ih s' q e' (inl more) =
          let (zs, inv') = attempt-Inv s s' ys k rnd inv lt q in
          rw more (
            subst (λ j. (xs : List ℕ) × Inv addr size seg_size t xs j) (add_assoc k _ _)
              (ih s' zs _ inv' (ltb→lt _ _ more) (rw more at e')))
      after ih s' q e' (inr done) =
          let (zs, inv') = attempt-Inv s s' ys k rnd inv lt q in
          rw (done, add-zero)
            (
              zs,
              subst
                  (λ u. Inv addr size seg_size u zs (k + self_pick stops addr size seg_size s rnd))
                  (eq_of_some (rw done at e')) inv',
            )
