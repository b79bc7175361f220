-- ===== src/MemLat/Setup/Frame.antt =====
-- `setup_rnd` writes to starts of segments only.
use mbench.Prelude.{
  ℕ, ◌/◌, ◌^◌, ◌≤◌, ◌<◌, ◌≡◌, refl, ◌∙◌, ◌≢◌, inl, inr, Bool, Option, none, some, List, [], ◌∷◌,
  arith, ltb, ◌==◌, Bool-cases, eq_of_some, Mem, store-ne,
}
use mathlib.Core.Path.{subst}
use mbench.MemLat.Setup.{
  State, Returned, returned, go, target, start, attempt, fill, close, ended, first_round, setup_rnd,
}
use mbench.MemLat.Setup.Closed.{exit-ne-returned, returned-injective, wide_test, segs_test}
use mbench.MemLat.Setup.Invariant.{Cell, target-Cell, go-injective, break-ne-go, Round-cases}

module _ (stops : ℕ → Bool) (addr size seg_size : ℕ) (placed : 0 < addr) (wide : 8 ≤ seg_size)
    (some_segs : 0 < size / seg_size) (fits : size / seg_size < 2 ^ 64) (b : ℕ)
    (off : (a : ℕ) → Cell addr size seg_size a → a ≢ b) where
  -- `pos` starts a segment and the word at `b` is `v`.
  record Kept (v : ℕ) (s : State) : Type 0 where
    at : Cell addr size seg_size s.pos
    same : s.mem b ≡ v

  attempt-Kept :
      (v rnd : ℕ) (s s' : State)
      → Kept v s
      → attempt stops addr size seg_size s rnd ≡ go s'
      → Kept v s'
  unfolding attempt
  attempt-Kept v rnd s s' k e =
      elim (Bool-cases (s.mem (target stops addr size seg_size rnd) == 0)) [
        | inl z ↦ subst (Kept v) (go-injective (rw z at e)) (record {
          at = target-Cell stops addr size seg_size placed wide some_segs fits rnd;
          same = store-ne s.mem s.pos _ b (off s.pos k.at) ∙ k.same;
        })
        | inr nz ↦ elim (Bool-cases (stops s.n_done)) [
          | inl stop ↦ absurd (break-ne-go (rw (nz, stop) at e))
          | inr on ↦
              subst (Kept v) (go-injective (rw (nz, on) at e)) (record { at = k.at; same = k.same })
        ]
      ]

  fill-Kept :
      (v : ℕ) (s t : State) (rnds : List ℕ)
      → Kept v s
      → fill stops addr size seg_size s rnds ≡ some t
      → Kept v t
  unfolding fill
  fill-Kept v s t [] k e = absurd (cc)
  fill-Kept v s t (rnd ∷ rnds) k e = elim (Round-cases (attempt stops addr size seg_size s rnd)) [
    | inl q ↦ subst (Kept v) (eq_of_some (rw (q, fill) at e)) k
    | inr (s', q) ↦ elim (Bool-cases (ltb s'.n_done (size / seg_size))) [
      | inl more ↦
          fill-Kept v s' t rnds (attempt-Kept v rnd s s' k q) (rw more at (rw (q, fill) at e))
      | inr done ↦
          subst (Kept v) (eq_of_some (rw done at (rw (q, fill) at e))) (attempt-Kept v rnd s s' k q)
    ]
  ]

  ended-other :
      (m : Mem) (rnds : List ℕ) (r : Returned) (o : Option State)
      → fill stops addr size seg_size (start stops addr size seg_size m) rnds ≡ o
      → ended stops addr size seg_size o ≡ returned r
      → r.mem b ≡ m b
  unfolding close
  ended-other m rnds r none q e = absurd (exit-ne-returned e)
  ended-other m rnds r (some t) q e =
      let k =
        fill-Kept (m b) _ t rnds (record { at = (0, some_segs, omega arith); same = refl }) q in
      subst (λ u. u.mem b ≡ m b) (returned-injective e)
        (store-ne t.mem t.pos addr b (off t.pos k.at) ∙ k.same)

  -- The words that start no segment are what they were.
  pub setup_rnd-other :
      (m : Mem) (rnds : Option (List ℕ)) (r : Returned)
      → setup_rnd stops addr size seg_size m rnds ≡ returned r
      → r.mem b ≡ m b
  unfolding setup_rnd first_round
  setup_rnd-other m none r e =
      absurd
        (exit-ne-returned (rw (wide_test stops addr size seg_size placed wide some_segs fits) at e))
  setup_rnd-other m (some []) r e =
      absurd
        (exit-ne-returned (rw (wide_test stops addr size seg_size placed wide some_segs fits) at e))
  setup_rnd-other m (some (rnd ∷ rnds)) r e = ended-other m (rnd ∷ rnds) r _ refl (
      rw
        (
          wide_test stops addr size seg_size placed wide some_segs fits,
          segs_test stops addr size seg_size placed wide some_segs fits,
        )
        at e)
