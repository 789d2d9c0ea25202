-- ===== src/Prelude/Family.antt =====
-- Families indexed by a goroutine's number, changed at one index.
use Prim.Native.Nat.{ℕ}
use mathlib.Core.Logic.{ite}
use native.Mathlib.Decide.{ℕ_discrete}

abbrev pub set_at {ℓ} : {A : Type ℓ} → ℕ → A → (ℕ → A) → ℕ → A
set_at i a f j = ite (ℕ_discrete i j) a (f j)
