-- ===== src/MemLat/Phases/Threads.antt =====
-- The setups of the threads of `parallel_test`: each in its own share.
use mbench.Prelude.{
  ℕ, ◌+◌, ◌*◌, ◌/◌, ◌^◌, ◌≤◌, ◌<◌, ◌≡◌, refl, sym, ap, ◌∙◌, ◌≢◌, inl, inr, Bool, Option, some, List,
  [], ◌∷◌, arith, All, Avoids, Distinct, Occurs, eq_of_some, Mem, update, update_self, update-ne,
  ℕ_discrete, >>=-eq-some,
}
use mathlib.Core.Path.{subst}
use mbench.MemLat.Setup.{stop_test, Returned}
use mbench.MemLat.Setup.Closed.{Cleared}
use mbench.MemLat.Setup.Frame.{setup_rnd-other}
use mbench.MemLat.Phases.{n_bytes, ptrs, setup_at, setup_threads}
use mbench.MemLat.Phases.Rings.{
  HasRing, kept-some, setup_at-HasRing, InShare, share-apart, Cell-InShare, share_div, ptrs_share,
}

Occurs-Avoids : (a x : ℕ) (xs : List ℕ) → Avoids x xs → Occurs a xs → x ≢ a
Occurs-Avoids a x [] d o e = o
Occurs-Avoids a x (y ∷ ys) d (inl q) e = d.0 (e ∙ q)
Occurs-Avoids a x (y ∷ ys) d (inr o) e = Occurs-Avoids a x ys d.1 o e

module _ (past : ℕ → ℕ → Bool) (ptr kb omp stride default_loop : ℕ) (placed : 0 < ptr)
    (wide : 8 ≤ stride) (some_segs : 0 < kb * 1024 / stride) (fits : ptr + kb * 1024 * omp < 2 ^ 64)
    (int_fits : omp * kb < 2 ^ 31) (threads : 0 < omp) (urandom : ℕ → Option (List ℕ)) where
  same_share : n_bytes past ptr kb omp stride default_loop / omp ≡ kb * 1024
  same_share = share_div (kb * 1024) omp threads

  small : kb * 1024 / stride < 2 ^ 64
  small = few_segs (kb * 1024) stride (omega arith) (grind arith)
    where
      few_segs : (size seg_size : ℕ) → 0 < seg_size → size < 2 ^ 64 → size / seg_size < 2 ^ 64
      few_segs size seg_size pos lt = grind arith

  setup_share : (i : ℕ) (m : Mem) → Option Returned
  setup_share i m = setup_at past (ptr + i * (kb * 1024)) (kb * 1024) stride m (urandom i)

  -- A setup leaves the other shares alone.
  other_share :
      (i j b : ℕ) (m : Mem) (r : Returned)
      → i ≢ j
      → InShare ptr (kb * 1024) j b
      → setup_at past (ptr + i * (kb * 1024)) (kb * 1024) stride m (urandom i) ≡ some r
      → r.mem b ≡ m b
  other_share i j b m r ne ib e =
      setup_rnd-other (stop_test (past ((kb * 1024) / stride)) (kb * 1024)) (ptr + i * (kb * 1024))
        (kb * 1024) stride (omega arith) wide some_segs small b
        (λ a c.
          share-apart ptr (kb * 1024) i j a b ne (Cell-InShare ptr (kb * 1024) stride i a wide c)
            ib)
        m (urandom i) r (kept-some _ r e)

  -- What holds of thread `i` after the setups of `order`, which has it once at most.
  pub record Done (order : List ℕ) (m : Mem) (rs : ℕ → Returned) (m' : Mem) (rs' : ℕ → Returned)
      (i : ℕ) : Type 0 where
    pub ring : Occurs i order → HasRing (ptr + i * (kb * 1024)) (kb * 1024) stride (rs' i)
    pub own : Occurs i order → (b : ℕ) → InShare ptr (kb * 1024) i b → m' b ≡ (rs' i).mem b
    pub rest : Avoids i order → rs' i ≡ rs i
    pub off : Avoids i order → (b : ℕ) → InShare ptr (kb * 1024) i b → m' b ≡ m b

  -- The thread that has just made its ring, and those after it.
  here :
      (j : ℕ) (order : List ℕ) (m m' : Mem) (rs rs' : ℕ → Returned) (r : Returned)
      → Avoids j order
      → Cleared (ptr + j * (kb * 1024)) (kb * 1024) stride m
      → setup_share j m ≡ some r
      → Done order r.mem (update rs j r) m' rs' j
      → Done (j ∷ order) m rs m' rs' j
  unfolding setup_share
  here j order m m' rs rs' r d c e later = record {
    ring = λ o. subst (HasRing (ptr + j * (kb * 1024)) (kb * 1024) stride) (sym mine) (
        setup_at-HasRing past stride wide (ptr + j * (kb * 1024)) (kb * 1024) m (urandom j) r
          (omega arith) some_segs small c e);
    own = λ o b ib. later.off d b ib ∙ ap (λ q. q.mem b) (sym mine);
    rest = λ av. absurd (av.0 refl);
    off = λ av. absurd (av.0 refl);
  }
    where
      mine : rs' j ≡ r
      mine = later.rest d ∙ update_self rs j r

  there :
      (i j : ℕ) (order : List ℕ) (m m' : Mem) (rs rs' : ℕ → Returned) (r : Returned)
      → j ≢ i
      → setup_share j m ≡ some r
      → Done order r.mem (update rs j r) m' rs' i
      → Done (j ∷ order) m rs m' rs' i
  unfolding setup_share
  there i j order m m' rs rs' r ne e later = record {
    ring = λ o. later.ring (occurs o);
    own = λ o. later.own (occurs o);
    rest = λ av. later.rest av.1 ∙ update-ne rs j i r ne;
    off = λ av b ib. later.off av.1 b ib ∙ other_share j i b m r ne ib e;
  }
    where
      occurs : Occurs i (j ∷ order) → Occurs i order
      occurs (inl q) = absurd (ne (sym q))
      occurs (inr o) = o

  pub setup_threads-Done :
      (order : List ℕ) (m m' : Mem) (rs rs' : ℕ → Returned)
      → Distinct order
      → All (λ j. j < omp) order
      → ((i : ℕ) → Occurs i order → Cleared (ptr + i * (kb * 1024)) (kb * 1024) stride m)
      → setup_threads past ptr kb omp stride default_loop urandom order m rs ≡ some (m', rs')
      → (i : ℕ) → Done order m rs m' rs' i
  unfolding setup_threads setup_share
  setup_threads-Done [] m m' rs rs' d below c e i = record {
    ring = λ o. absurd o;
    own = λ o. absurd o;
    rest = λ av. sym (ap (λ p. p.1 i) (eq_of_some e));
    off = λ av b ib. sym (ap (λ p. p.0 b) (eq_of_some e));
  }
  setup_threads-Done (j ∷ order) m m' rs rs' d below c e i =
      let (r, se, re) =
        >>=-eq-some (setup_share j m)
          (λ r.
            setup_threads past ptr kb omp stride default_loop urandom order r.mem (update rs j r))
          (rw (start, same_share) at e) in
      let later =
        setup_threads-Done order r.mem m' (update rs j r) rs' d.1 below.1 (clear r se) re i in
      elim (ℕ_discrete j i) [
        | yes q ↦ subst (Done (j ∷ order) m rs m' rs') q (
            here j order m m' rs rs' r d.0 (c j (inl refl)) se
              (subst (Done order r.mem (update rs j r) m' rs') (sym q) later))
        | no ne ↦ there i j order m m' rs rs' r ne se later
      ]
    where
      start : ptrs past ptr kb omp stride default_loop j ≡ ptr + j * (kb * 1024)
      start = ptrs_share past ptr kb omp stride default_loop j int_fits fits below.0

      clear :
          (r : Returned)
          → setup_share j m ≡ some r
          → (i : ℕ) → Occurs i order
          → Cleared (ptr + i * (kb * 1024)) (kb * 1024) stride r.mem
      clear r se i o n lt =
          other_share j i _ m r (Occurs-Avoids i j order d.0 o)
            (Cell-InShare ptr (kb * 1024) stride i _ wide (n, lt, refl)) se
          ∙ c i (inr o) n lt
