-- ===== src/Ring.antt =====
-- Rings of pointers: what the latency tests of mem_lat.c, ParallelCacheMiss.c,
-- simpleMemLatChecker.c and freqLat.c walk along. A chain is kept as the list of the addresses
-- that it visits, the newest first.
use mbench.Prelude.{
  ℕ, zero, suc, ◌+◌, ◌*◌, ◌/◌, ◌%◌, ◌≤◌, ◌<◌, ◌≡◌, sym, ap, ◌∙◌, ◌≢◌, List, [], ◌∷◌, arith,
  ℕ_discrete, length, All, Avoids, Distinct, Mem, store, store-ne, chase,
}
use mathlib.Core.Path.{subst}

-- A chase from `a` comes back to `a` after `p` loads, and not before.
abbrev pub Period : Mem → ℕ → ℕ → Type 0
Period m a p = (0 < p) × (chase m p a ≡ a) × ((k : ℕ) → 0 < k → k < p → chase m k a ≢ a)

-- `x` was linked after the newest of `ys`, and so on down to `a`.
abbrev pub Linked : Mem → ℕ → ℕ → List ℕ → Type 0
Linked m a x [] = x ≡ a
Linked m a x (y ∷ ys) = (m y ≡ x) × Linked m a y ys

pub Linked-store :
    (m : Mem) (a x p v : ℕ) (ys : List ℕ)
    → Avoids p ys
    → Linked m a x ys
    → Linked (store m p v) a x ys
Linked-store m a x p v [] d l = l
Linked-store m a x p v (y ∷ ys) d l =
    (store-ne m p v y d.0 ∙ l.0, Linked-store m a y p v ys d.1 l.1)

pub Linked-chase : (m : Mem) (a x : ℕ) (ys : List ℕ) → Linked m a x ys → chase m (length ys) a ≡ x
Linked-chase m a x [] l = omega arith
Linked-chase m a x (y ∷ ys) l = ap m (Linked-chase m a y ys l.1) ∙ l.0

-- The oldest address of a chain is `a`, so what avoids the chain is not `a`.
Avoids-ne : (m : Mem) (a x y : ℕ) (ys : List ℕ) → Linked m a y ys → Avoids x (y ∷ ys) → x ≢ a
Avoids-ne m a x y [] l d e = d.0 (omega arith)
Avoids-ne m a x y (z ∷ ys) l d e = Avoids-ne m a x z ys l.1 d.1 e

Linked-ne :
    (m : Mem) (a x : ℕ) (ys : List ℕ)
    → Linked m a x ys
    → Distinct (x ∷ ys)
    → (k : ℕ) → 0 < k
    → k ≤ length ys
    → chase m k a ≢ a
Linked-ne m a x [] l d k pos h = absurd (omega arith)
Linked-ne m a x (y ∷ ys) l d k pos h = elim (ℕ_discrete k (suc (length ys))) [
  | yes e ↦ λ q. Avoids-ne m a x y ys l.1 d.0 (cc (Linked-chase m a x (y ∷ ys) l))
  | no ne ↦ Linked-ne m a y ys l.1 d.1 k pos (omega arith)
]

-- A chain of distinct addresses whose newest points back to the oldest is a ring.
pub Linked-Period :
    (m : Mem) (a x : ℕ) (ys : List ℕ)
    → Linked m a x ys
    → Distinct (x ∷ ys)
    → m x ≡ a
    → Period m a (suc (length ys))
Linked-Period m a x ys l d e = (
  omega arith,
  ap m (Linked-chase m a x ys l) ∙ e,
  λ k pos h. Linked-ne m a x ys l d k pos (omega arith),
)

pub chase-add : (m : Mem) (j k a : ℕ) → chase m (j + k) a ≡ chase m j (chase m k a)
chase-add m zero k a = let e : zero + k ≡ k = omega arith in ap (λ n. chase m n a) e
chase-add m (suc j) k a =
    let e : suc j + k ≡ suc (j + k) = omega arith in
    ap (λ n. chase m n a) e ∙ ap m (chase-add m j k a)

-- What holds at each address of a chain holds along the chase.
Linked-All :
    (P : ℕ → Type 0) (m : Mem) (a x : ℕ) (ys : List ℕ)
    → Linked m a x ys
    → All P (x ∷ ys)
    → (k : ℕ) → k ≤ length ys
    → P (chase m k a)
Linked-All P m a x [] l c k h = subst P (l ∙ ap (λ n. chase m n a) (zero_k h)) c.0
  where
    zero_k : k ≤ 0 → 0 ≡ k
    zero_k h = omega arith
Linked-All P m a x (y ∷ ys) l c k h = elim (ℕ_discrete k (suc (length ys))) [
  | yes e ↦ subst P (sym (Linked-chase m a x (y ∷ ys) l) ∙ ap (λ n. chase m n a) (sym e)) c.0
  | no ne ↦ Linked-All P m a y ys l.1 c.1 k (omega arith)
]

-- Whole turns of a ring change nothing.
chase-turns :
    (m : Mem) (a p : ℕ) → chase m p a ≡ a → (q r : ℕ) → chase m (r + q * p) a ≡ chase m r a
chase-turns m a p e zero r = let z : r + 0 * p ≡ r = omega arith in ap (λ n. chase m n a) z
chase-turns m a p e (suc q) r =
    let z : r + suc q * p ≡ (r + q * p) + p = omega arith in
    ap (λ n. chase m n a) z
    ∙ chase-add m (r + q * p) p a
    ∙ ap (chase m (r + q * p)) e
    ∙ chase-turns m a p e q r

pub Period-mod : (m : Mem) (a p k : ℕ) → Period m a p → chase m k a ≡ chase m (k % p) a
Period-mod m a p k per =
    let z : k ≡ k % p + k / p * p = omega arith in
    ap (λ n. chase m n a) z ∙ chase-turns m a p per.1 (k / p) (k % p)

-- On a ring it holds for ever.
pub Ring-All :
    (P : ℕ → Type 0) (m : Mem) (a x : ℕ) (ys : List ℕ)
    → Linked m a x ys
    → Distinct (x ∷ ys)
    → m x ≡ a
    → All P (x ∷ ys)
    → (k : ℕ) → P (chase m k a)
Ring-All P m a x ys l d e c k =
    subst P (sym (Period-mod m a (suc (length ys)) k (Linked-Period m a x ys l d e)))
      (Linked-All P m a x ys l c (k % suc (length ys)) (omega arith))
