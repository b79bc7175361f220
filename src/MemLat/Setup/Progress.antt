-- ===== src/MemLat/Setup/Progress.antt =====
-- The loop of `setup_rnd` ends: each run of random numbers that names every segment links one.
use mbench.Prelude.{
  ℕ, suc, ◌+◌, ◌*◌, ◌/◌, ◌%◌, ◌^◌, ◌≤◌, ◌<◌, ◌≡◌, refl, sym, ap, ◌∙◌, ◌≢◌, ◌⊎◌, inl, inr, Bool,
  false, Option, some, List, [], ◌∷◌, ◌++◌, arith, length, All, ltb, ltb→lt, ◌==◌, ==_iff,
  if◌then◌else◌, inc64, Bool-cases, Mem, store, total-find, total-zero,
}
use mathlib.Core.Path.{subst}
use mathlib.Core.Bool.{true≢false}
use mbench.MemLat.Setup.{
  State, Round, break, go, Returned, returned, start, target, attempt, fill, close, ended,
  first_round, setup_rnd,
}
use mbench.MemLat.Setup.Invariant.{mark, Cell, used, used-store, Cell-pos, target-Cell, Round-cases}
use mbench.MemLat.Setup.Closed.{Cleared}

-- Some number of the list picks segment `i` out of `n`.
abbrev pub Picks : ℕ → ℕ → List ℕ → Type 0
Picks n i [] = ⊥
Picks n i (r ∷ rs) = (r % n ≡ i) ⊎ Picks n i rs

abbrev pub Covers : ℕ → List ℕ → Type 0
Covers n rs = (i : ℕ) → i < n → Picks n i rs

abbrev pub join : List (List ℕ) → List ℕ
join [] = []
join (rs ∷ rss) = rs ++ join rss

mark-zero : (w : ℕ) → mark w ≡ 0 → w ≡ 0
mark-zero w h = ground arith

module _ (stops : ℕ → Bool) (addr size seg_size : ℕ) (placed : 0 < addr) (wide : 8 ≤ seg_size)
    (some_segs : 0 < size / seg_size) (fits : size / seg_size < 2 ^ 64) where
  -- `n_done` counts at least the segments whose first word is set.
  record Counting (d : ℕ) (s : State) : Type 0 where
    at : Cell addr size seg_size s.pos
    enough : used addr size seg_size s.mem ≤ s.n_done
    past : d ≤ s.n_done
    short : s.n_done < size / seg_size

  abbrev Ends : State → List ℕ → Type 0
  Ends s rnds = (t : State) × (fill stops addr size seg_size s rnds ≡ some t)

  -- What a round can be: the end, a link made, or a conflict that leaves the memory alone.
  data Made (s : State) (rnd : ℕ) : Round → Type 0 where
    breaks : Made s rnd break
    links :
        (s' : State)
        → ((d : ℕ) → Counting d s → s'.n_done < size / seg_size → Counting (suc d) s')
        → s.mem (target stops addr size seg_size rnd) ≡ 0
        → Made s rnd (go s')
    conflicts :
        (c : ℕ)
        → s.mem (target stops addr size seg_size rnd) ≢ 0
        → Made s rnd (go (record s { n_conflict = c }))

  link-Counting :
      (s : State) (t d : ℕ)
      → Cell addr size seg_size t
      → Counting d s
      → inc64 s.n_done < size / seg_size
      → Counting (suc d) (record s { mem = store s.mem s.pos t; pos = t; n_done = inc64 s.n_done })
  link-Counting s t d c k lt = record {
    at = c;
    enough = omega (
      arith,
      used-store addr size seg_size placed wide s.mem s.pos t k.at
          (Cell-pos addr size seg_size placed wide t c),
      k.enough,
      k.short,
    );
    past = omega (arith, k.past, k.short);
    short = lt;
  }

  attempt-Made : (s : State) (rnd : ℕ) → Made s rnd (attempt stops addr size seg_size s rnd)
  unfolding attempt
  attempt-Made s rnd = elim (Bool-cases (s.mem (target stops addr size seg_size rnd) == 0)) [
    | inl z ↦ rw z (
        links _
          (λ d.
            link-Counting s _ d
              (target-Cell stops addr size seg_size placed wide some_segs fits rnd))
          ((==_iff _ _).0 z))
    | inr nz ↦ rw nz (elim (Bool-cases (stops s.n_done)) [
      | inl stop ↦ rw stop breaks
      | inr on ↦ rw on (conflicts _ (λ z. true≢false (sym ((==_iff _ _).1 z) ∙ nz)))
    ])
  ]

  -- The loop after a round.
  abbrev follow : State → List ℕ → Round → Option State
  follow s rnds break = some s
  follow s rnds (go s') =
      let rest = fill stops addr size seg_size s' rnds in
      if ltb s'.n_done (size / seg_size) then rest else some s'

  fill-follow :
      (s : State) (rnd : ℕ) (rnds : List ℕ)
      → fill stops addr size seg_size s (rnd ∷ rnds)
        ≡ follow s rnds (attempt stops addr size seg_size s rnd)
  unfolding fill
  fill-follow s rnd rnds = elim (Round-cases (attempt stops addr size seg_size s rnd)) [
    | inl q ↦ rw (q, fill)
    | inr (s', q) ↦ rw (q, fill)
  ]

  abbrev FollowEnds : State → List ℕ → Round → Type 0
  FollowEnds s rnds r = (t : State) × (follow s rnds r ≡ some t)

  go-Ends :
      (s s' : State) (rnds : List ℕ)
      → (s'.n_done < size / seg_size → Ends s' rnds)
      → FollowEnds s rnds (go s')
  go-Ends s s' rnds h = elim (Bool-cases (ltb s'.n_done (size / seg_size))) [
    | inl more ↦ rw more (h (ltb→lt _ _ more))
    | inr done ↦ rw done (s', refl)
  ]

  conflict-Counting :
      (s : State) (d c : ℕ) → Counting d s → Counting d (record s { n_conflict = c })
  conflict-Counting s d c k = record {
    at = k.at;
    enough = k.enough;
    past = k.past;
    short = k.short;
  }

  weaken : (s : State) (d : ℕ) → Counting (suc d) s → Counting d s
  weaken s d k = record {
    at = k.at;
    enough = k.enough;
    past = omega (arith, k.past);
    short = k.short;
  }

  later_step :
      (d : ℕ) (rnds : List ℕ)
      → ((s : State) → Counting d s → Ends s rnds)
      → (s : State) (x : ℕ) → Counting d s
      → (r : Round) → Made s x r
      → FollowEnds s rnds r
  later_step d rnds h s x k r breaks = (s, refl)
  later_step d rnds h s x k r (links s' next z) =
      go-Ends s s' rnds (λ lt. h s' (weaken s' d (next d k lt)))
  later_step d rnds h s x k r (conflicts c nz) =
      go-Ends s (record s { n_conflict = c }) rnds (λ lt. h _ (conflict-Counting s d c k))

  -- If every state that has done `d` rounds ends on `rest`, it ends on more than `rest`.
  later-Ends :
      (d : ℕ) (xs rest : List ℕ)
      → ((s : State) → Counting d s → Ends s rest)
      → (s : State) → Counting d s
      → Ends s (xs ++ rest)
  later-Ends d [] rest h s k = h s k
  later-Ends d (x ∷ xs) rest h s k =
      rw (fill-follow s x (xs ++ rest))
        (later_step d (xs ++ rest) (later-Ends d xs rest h) s x k _ (attempt-Made s x))

  block_step :
      (d i : ℕ) (xs rest : List ℕ)
      → ((s : State) → Counting (suc d) s → Ends s rest)
      → (s : State) (x : ℕ) → Counting d s
      → s.mem (addr + i * seg_size) ≡ 0
      → Picks (size / seg_size) i (x ∷ xs)
      → (Picks (size / seg_size) i xs → (c : ℕ) → Ends (record s { n_conflict = c }) (xs ++ rest))
      → (r : Round) → Made s x r
      → FollowEnds s (xs ++ rest) r
  block_step d i xs rest h s x k z p ih r breaks = (s, refl)
  block_step d i xs rest h s x k z p ih r (links s' next z') =
      go-Ends s s' (xs ++ rest) (λ lt. later-Ends (suc d) xs rest h s' (next d k lt))
  block_step d i xs rest h s x k z (inl e) ih r (conflicts c nz) =
      absurd (nz (subst (λ j. s.mem (addr + j * seg_size) ≡ 0) (sym e) z))
  block_step d i xs rest h s x k z (inr p) ih r (conflicts c nz) =
      go-Ends s (record s { n_conflict = c }) (xs ++ rest) (λ lt. ih p c)

  -- Numbers that name a clear segment link one, or the loop ends before.
  block-Ends :
      (d i : ℕ) (xs rest : List ℕ)
      → ((s : State) → Counting (suc d) s → Ends s rest)
      → (s : State) → Counting d s
      → s.mem (addr + i * seg_size) ≡ 0
      → Picks (size / seg_size) i xs
      → Ends s (xs ++ rest)
  block-Ends d i [] rest h s k z p = absurd p
  block-Ends d i (x ∷ xs) rest h s k z p = rw (fill-follow s x (xs ++ rest)) (
      block_step d i xs rest h s x k z p
        (λ p' c.
          block-Ends d i xs rest h (record s { n_conflict = c }) (conflict-Counting s d c k) z p')
        _ (attempt-Made s x))

  every-Ends :
      (d : ℕ) (blocks : List (List ℕ))
      → All (Covers (size / seg_size)) blocks
      → size / seg_size ≤ d + length blocks
      → (s : State) → Counting d s
      → Ends s (join blocks)
  every-Ends d [] c h s k = absurd (omega (arith, k.past, k.short))
  every-Ends d (b ∷ blocks) c h s k =
      let (i, lt, z) =
        total-find (size / seg_size) (λ j. mark (s.mem (addr + j * seg_size)))
          (omega (arith, k.enough, k.short)) in
      block-Ends d i b (join blocks) (every-Ends (suc d) blocks c.1 (omega arith)) s k
        (mark-zero _ z) (c.0 i lt)

  first_round_returned :
      (m : Mem) (rnds : List ℕ) (t : State)
      → fill stops addr size seg_size (start stops addr size seg_size m) rnds ≡ some t
      → first_round stops addr size seg_size m rnds ≡ returned (close stops addr size seg_size t)
  unfolding first_round fill
  first_round_returned m [] t e = absurd (cc)
  first_round_returned m (rnd ∷ rnds) t e =
      rw (segs_test, first_round) (ap (ended stops addr size seg_size) e)
    where
      segs_test : (size / seg_size == 0) ≡ false
      segs_test = ground arith

  -- On a cleared region that starts at a nonzero address and holds at least one segment, fewer than
  -- 2^64, of 8 bytes or more, `setup_rnd` returns if /dev/urandom gives as many blocks of numbers
  -- as there are segments and each block picks every segment: the loop does not run for ever, and
  -- no read fails before.
  pub setup_rnd_ends :
      (m : Mem) (blocks : List (List ℕ))
      → Cleared addr size seg_size m
      → All (Covers (size / seg_size)) blocks
      → size / seg_size ≤ length blocks
      → (r : Returned) × (setup_rnd stops addr size seg_size m (some (join blocks)) ≡ returned r)
  unfolding setup_rnd
  setup_rnd_ends m blocks c cover h =
      let (t, e) =
        every-Ends 0 blocks cover (omega arith) (start stops addr size seg_size m) first in
      (close stops addr size seg_size t, rw wide_test (first_round_returned m (join blocks) t e))
    where
      wide_test : (seg_size == 0) ≡ false
      wide_test = ground arith

      first : Counting 0 (start stops addr size seg_size m)
      first = record {
        at = (0, some_segs, omega arith);
        enough = omega (arith, total-zero (size / seg_size) _ (λ i lt. ap mark (c i lt)));
        past = omega arith;
        short = some_segs;
      }
