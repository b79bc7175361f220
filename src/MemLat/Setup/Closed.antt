-- ===== src/MemLat/Setup/Closed.antt =====
-- What `setup_rnd` leaves behind: one ring through `addr`, and how long it is.
use mbench.Prelude.{
  ℕ, suc, ◌+◌, ◌*◌, ◌/◌, ◌^◌, ◌≤◌, ◌<◌, ◌≡◌, refl, ap, ◌≢◌, inl, Bool, false, Option, none, some,
  List, [], ◌∷◌, arith, length, ◌==◌, Mem, store, store_self, total-zero, chase,
}
use mathlib.Core.Path.{subst}
use native.Mathlib.Nat.{zero-add}
use mbench.Ring.{Period, Linked-store, Linked-Period, Ring-All}
use mbench.MemLat.Setup.{
  State, Returned, returned, exit, start, fill, close, ended, first_round, setup_rnd, self_picks,
}
use mbench.MemLat.Setup.Invariant.{mark, Cell, used, Inv, used-store, used-le, fill-Inv}

-- The first word of each segment is 0, as `memset` leaves it.
abbrev pub Cleared : ℕ → ℕ → ℕ → Mem → Type 0
Cleared addr size seg_size m = (i : ℕ) → i < size / seg_size → m (addr + i * seg_size) ≡ 0

-- What the call guarantees for a ring of `p` segments when it picked `k` segments twice in a row.
pub record Ring (addr size seg_size : ℕ) (k : ℕ) (r : Returned) (p : ℕ) : Type 0 where
  pub period : Period r.mem addr p
  pub on : (k : ℕ) → Cell addr size seg_size (chase r.mem k addr)
  pub linked : used addr size seg_size r.mem ≡ p
  pub done : p + k ≡ r.debug_ret.0 + 1
  pub room : p ≤ size / seg_size

pub exit-ne-returned : {r : Returned} → exit ≢ returned r
exit-ne-returned e = cc

pub returned-injective : {r q : Returned} → returned r ≡ returned q → r ≡ q
returned-injective e = cc

module _ (stops : ℕ → Bool) (addr size seg_size : ℕ) (placed : 0 < addr) (wide : 8 ≤ seg_size)
    (some_segs : 0 < size / seg_size) (fits : size / seg_size < 2 ^ 64) where
  pub wide_test : (seg_size == 0) ≡ false
  wide_test = ground arith

  pub segs_test : (size / seg_size == 0) ≡ false
  segs_test = ground arith

  start-Inv :
      (m : Mem)
      → Cleared addr size seg_size m
      → Inv addr size seg_size (start stops addr size seg_size m) [] 0
  start-Inv m c = record {
    cells = ((0, some_segs, omega arith), tt);
    fresh = (tt, tt);
    linked = refl;
    tip = inl first;
    clean = λ a (i, lt, e) d. rw e (c i lt);
    filled =
        omega (arith, total-zero (size / seg_size) _ (λ i lt. ap mark (c i lt)), ap mark first);
    counted = refl;
  }
    where
      first : m addr ≡ 0
      first = let e : addr + 0 * seg_size ≡ addr = omega arith in rw e at (c 0 some_segs)

  close-Ring :
      (s : State) (ys : List ℕ) (k : ℕ)
      → Inv addr size seg_size s ys k
      → Ring addr size seg_size k (close stops addr size seg_size s) (suc (length ys))
  unfolding close
  close-Ring s ys k inv = record {
    period =
        Linked-Period (store s.mem s.pos addr) addr s.pos ys
          (Linked-store s.mem addr s.pos s.pos addr ys inv.fresh.0 inv.linked) inv.fresh
          (store_self s.mem s.pos addr);
    on =
        Ring-All (Cell addr size seg_size) (store s.mem s.pos addr) addr s.pos ys
          (Linked-store s.mem addr s.pos s.pos addr ys inv.fresh.0 inv.linked) inv.fresh
          (store_self s.mem s.pos addr) inv.cells;
    linked = all_linked;
    done = omega (arith, inv.counted);
    room =
        omega (arith, all_linked, used-le addr size seg_size placed wide (store s.mem s.pos addr));
  }
    where
      all_linked : used addr size seg_size (store s.mem s.pos addr) ≡ suc (length ys)
      all_linked = omega (
        arith,
        used-store addr size seg_size placed wide s.mem s.pos addr inv.cells.0 placed,
        inv.filled,
      )

  ended-Ring :
      (m : Mem) (rnds : List ℕ) (r : Returned) (o : Option State)
      → Cleared addr size seg_size m
      → fill stops addr size seg_size (start stops addr size seg_size m) rnds ≡ o
      → ended stops addr size seg_size o ≡ returned r
      → (p : ℕ) × Ring addr size seg_size
          (self_picks stops addr size seg_size (start stops addr size seg_size m) rnds)
          r
          p
  ended-Ring m rnds r none c q e = absurd (exit-ne-returned e)
  ended-Ring m rnds r (some t) c q e =
      let (ys, inv) =
        fill-Inv stops addr size seg_size placed wide some_segs fits
          (start stops addr size seg_size m) t [] 0 rnds (start-Inv m c) some_segs q in
      (
        suc (length ys),
        subst
            (λ u.
              Ring addr size seg_size
                (self_picks stops addr size seg_size (start stops addr size seg_size m) rnds) u
                (suc (length ys)))
            (returned-injective e)
            (close-Ring t ys _ (subst (Inv addr size seg_size t ys) (zero-add _) inv)),
      )

  -- If `setup_rnd` returns, after it was given a cleared region that starts at a nonzero address
  -- and holds at least one segment, fewer than 2^64, of 8 bytes or more, then the chase from `addr`
  -- is a ring: it returns to `addr` after `p` loads and not before, at segments only. The ring
  -- holds each segment whose first word is set, and `p` exceeds the count of rounds done,
  -- `debug_ret[idx][0]`, by one less the number of rounds that picked the segment they stood on. It
  -- is no longer than the number of segments.
  pub setup_rnd-Ring :
      (m : Mem) (rnds : List ℕ) (r : Returned)
      → Cleared addr size seg_size m
      → setup_rnd stops addr size seg_size m (some rnds) ≡ returned r
      → (p : ℕ) × Ring addr size seg_size
          (self_picks stops addr size seg_size (start stops addr size seg_size m) rnds)
          r
          p
  unfolding setup_rnd first_round
  setup_rnd-Ring m [] r c e = absurd (exit-ne-returned (rw wide_test at e))
  setup_rnd-Ring m (rnd ∷ rnds) r c e =
      ended-Ring m (rnd ∷ rnds) r _ c refl (rw (wide_test, segs_test) at e)
