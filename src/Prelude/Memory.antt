-- ===== src/Prelude/Memory.antt =====
-- Memory as a function: the 64-bit word at each address. A store changes the word at its address
-- alone, so that a model is one of the code where the words stored and loaded do not overlap: where
-- their addresses are 8 bytes apart or more.
use Prim.Native.Nat.{ℕ, zero, suc}
use mathlib.Core.Path.{◌≡◌}
use mathlib.Core.Logic.{◌≢◌}
use native.Mathlib.Omega.{arith}
use mbench.Prelude.Tests.{◌==◌, if◌then◌else◌}

abbrev pub Mem : Type 0
Mem = ℕ → ℕ

abbrev pub store : Mem → ℕ → ℕ → Mem
store m a v b = if a == b then v else m b

pub store_self : (m : Mem) (a v : ℕ) → store m a v a ≡ v
store_self m a v = ground arith

pub store-ne : (m : Mem) (a v b : ℕ) → a ≢ b → store m a v b ≡ m b
store-ne m a v b h = ground arith

-- `p = (char **)*p`, `n` times.
abbrev pub chase : Mem → ℕ → ℕ → ℕ
chase m zero p = p
chase m (suc n) p = m (chase m n p)

-- A family with one member changed.
abbrev pub update {ℓ} : {A : Type ℓ} → (ℕ → A) → ℕ → A → ℕ → A
update f i a j = if i == j then a else f j

pub update_self {ℓ} : {A : Type ℓ} (f : ℕ → A) (i : ℕ) (a : A) → update f i a i ≡ a
update_self f i a = ground arith

pub update-ne {ℓ} : {A : Type ℓ} (f : ℕ → A) (i j : ℕ) (a : A) → i ≢ j → update f i a j ≡ f j
update-ne f i j a ne = ground arith
