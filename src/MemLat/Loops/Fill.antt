-- ===== src/MemLat/Loops/Fill.antt =====
-- `measure_rnd_fill` writes beside the links and leaves the ring as it was, for segments of at
-- least 16 bytes; with segments of 8 bytes it overwrites the next link.
use mbench.Prelude.{
  ℕ, zero, suc, ◌+◌, ◌*◌, ◌≤◌, ◌≡◌, refl, sym, ap, ◌∙◌, ◌≢◌, arith, dec_lt, Mem, store, store_self,
  store-ne, chase,
}
use mathlib.Core.Path.{subst}
use mbench.MemLat.Setup.{Returned}
use mbench.MemLat.Setup.Invariant.{Cell}
use mbench.MemLat.Setup.Closed.{Ring}
use mbench.MemLat.Loops.{
  Walk, wr_one, wr_five, wr_ten, wr_fifty, wr_hundred, fill_inner, fill_outer, measure_rnd_fill,
}

-- `P` holds of the addresses of links: it is closed under loads, and the word after a link is
-- no link.
module _ (P : ℕ → Type 0) (m : Mem) (closed : (q : ℕ) → P q → P (m q))
    (apart : (q b : ℕ) → P q → P b → q + 8 ≢ b) (a : ℕ) where
  -- After `n` steps of the fill from `a`.
  pub record Track (n : ℕ) (w : Walk) : Type 0 where
    pub same : (b : ℕ) → P b → w.0 b ≡ m b
    pub at : w.1 ≡ chase m n a
    pub on : P w.1

  one-Track : (n : ℕ) (w : Walk) → Track n w → Track (suc n) (wr_one w)
  unfolding wr_one
  one-Track n w t = record {
    same = λ b pb. store-ne w.0 (w.1 + 8) 1 b (apart w.1 b t.on pb) ∙ t.same b pb;
    at = step ∙ ap m t.at;
    on = subst P (sym step) (closed w.1 t.on);
  }
    where
      step : store w.0 (w.1 + 8) 1 w.1 ≡ m w.1
      step = store-ne w.0 (w.1 + 8) 1 w.1 (apart w.1 w.1 t.on t.on) ∙ t.same w.1 t.on

  five-Track : (n : ℕ) (w : Walk) → Track n w → Track (n + 5) (wr_five w)
  unfolding wr_five
  five-Track n w t =
      let e : suc (suc (suc (suc (suc n)))) ≡ n + 5 = omega arith in
      subst (λ k. Track k (wr_five w)) e
        (one-Track _ _ (one-Track _ _ (one-Track _ _ (one-Track _ _ (one-Track n w t)))))

  ten-Track : (n : ℕ) (w : Walk) → Track n w → Track (n + 10) (wr_ten w)
  unfolding wr_ten
  ten-Track n w t =
      let e : n + 5 + 5 ≡ n + 10 = omega arith in
      subst (λ k. Track k (wr_ten w)) e (five-Track _ _ (five-Track n w t))

  fifty-Track : (n : ℕ) (w : Walk) → Track n w → Track (n + 50) (wr_fifty w)
  unfolding wr_fifty
  fifty-Track n w t =
      let e : n + 10 + 10 + 10 + 10 + 10 ≡ n + 50 = omega arith in
      subst (λ k. Track k (wr_fifty w)) e
        (ten-Track _ _ (ten-Track _ _ (ten-Track _ _ (ten-Track _ _ (ten-Track n w t)))))

  hundred-Track : (n : ℕ) (w : Walk) → Track n w → Track (n + 100) (wr_hundred w)
  unfolding wr_hundred
  hundred-Track n w t =
      let e : n + 50 + 50 ≡ n + 100 = omega arith in
      subst (λ k. Track k (wr_hundred w)) e (fifty-Track _ _ (fifty-Track n w t))

  inner-Track : (i n : ℕ) (w : Walk) → Track n w → Track (n + i * 100) (fill_inner i w)
  unfolding fill_inner
  inner-Track zero n w t = let e : n ≡ n + 0 * 100 = omega arith in subst (λ k. Track k w) e t
  inner-Track (suc i) n w t =
      let e : n + 100 + i * 100 ≡ n + suc i * 100 = omega arith in
      subst (λ k. Track k (fill_inner i (wr_hundred w))) e
        (inner-Track i (n + 100) (wr_hundred w) (hundred-Track n w t))

  outer-Track :
      (itr1 itr2 n : ℕ) (w : Walk)
      → Track n w
      → Track (n + itr1 * (itr2 * 100)) (fill_outer itr1 itr2 w)
  unfolding fill_outer
  outer-Track zero itr2 n w t =
      let e : n ≡ n + 0 * (itr2 * 100) = omega arith in subst (λ k. Track k w) e t
  outer-Track (suc itr1) itr2 n w t =
      let e : n + itr2 * 100 + itr1 * (itr2 * 100) ≡ n + suc itr1 * (itr2 * 100) = omega arith in
      subst (λ k. Track k (fill_outer itr1 itr2 (fill_inner itr2 w))) e
        (outer-Track itr1 itr2 (n + itr2 * 100) (fill_inner itr2 w) (inner-Track itr2 n w t))

  pub fill-Track :
      (itr1 itr2 : ℕ) → P a → Track (itr1 * itr2 * 100) (measure_rnd_fill m a itr1 itr2)
  unfolding measure_rnd_fill
  fill-Track itr1 itr2 pa =
      let e : 0 + itr1 * (itr2 * 100) ≡ itr1 * itr2 * 100 = grind arith in
      subst (λ k. Track k (fill_outer itr1 itr2 (m, a))) e
        (outer-Track itr1 itr2 0 (m, a) (record { same = λ b _. refl; at = refl; on = pa }))

-- The address of a link of the ring through `addr`.
abbrev pub OnRing : Mem → ℕ → ℕ → Type 0
OnRing m addr q = (k : ℕ) × (chase m k addr ≡ q)

-- The word after the start of a segment starts no segment, if segments have 16 bytes or more.
pub Cell-apart :
    (addr size seg_size q b : ℕ)
    → 16 ≤ seg_size
    → Cell addr size seg_size q
    → Cell addr size seg_size b
    → q + 8 ≢ b
Cell-apart addr size seg_size q b wide (i, li, ei) (j, lj, ej) e = elim (dec_lt i j) [
  | yes lt ↦ absurd (grind arith)
  | no ge ↦ absurd (grind arith)
]

-- On a ring that `setup_rnd` made from segments of 16 bytes or more, the fill loops walk the
-- same addresses as the read loops, `itr1 * itr2 * 100` links from `addr`, and every link of the
-- ring is afterwards what it was.
pub measure_rnd_fill-Ring :
    (addr size seg_size k itr1 itr2 p : ℕ) (r : Returned)
    → 16 ≤ seg_size
    → Ring addr size seg_size k r p
    → ((measure_rnd_fill r.mem addr itr1 itr2).1 ≡ chase r.mem (itr1 * itr2 * 100) addr)
      × ((j : ℕ)
          → (measure_rnd_fill r.mem addr itr1 itr2).0 (chase r.mem j addr)
            ≡ r.mem (chase r.mem j addr))
measure_rnd_fill-Ring addr size seg_size k itr1 itr2 p r wide ring =
    (track.at, λ j. track.same _ (j, refl))
  where
    closed : (q : ℕ) → OnRing r.mem addr q → OnRing r.mem addr (r.mem q)
    closed q (j, e) = (suc j, ap r.mem e)

    cell : (q : ℕ) → OnRing r.mem addr q → Cell addr size seg_size q
    cell q (i, e) = subst (Cell addr size seg_size) e (ring.on i)

    apart : (q b : ℕ) → OnRing r.mem addr q → OnRing r.mem addr b → q + 8 ≢ b
    apart q b oq ob = Cell-apart addr size seg_size q b wide (cell q oq) (cell b ob)

    track :
        Track
          (OnRing r.mem addr)
          r.mem
          closed
          apart
          addr
          (itr1 * itr2 * 100)
          (measure_rnd_fill r.mem addr itr1 itr2)
    track = fill-Track (OnRing r.mem addr) r.mem closed apart addr itr1 itr2 (0, refl)

-- With one-word segments (`-d 8`) the word beside a link is the next segment's link: where the
-- next segment is also the next of the ring, the second step loads the 1 that the first has
-- written, and `q` is no longer the address of a segment.
fill_stride_8 : (m : Mem) (q : ℕ) → m q ≡ q + 8 → (wr_one (wr_one (m, q))).1 ≡ 1
unfolding wr_one
fill_stride_8 m q e =
    let first : store m (q + 8) 1 q ≡ q + 8 = store-ne m (q + 8) 1 q (omega arith) ∙ e in
    rw first
      (store-ne (store m (q + 8) 1) (q + 8 + 8) 1 (q + 8) (omega arith) ∙ store_self m (q + 8) 1)
