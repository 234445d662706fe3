-- ===== src/Prelude/Int.antt =====
-- Process return codes: `negsuc n` is -(n + 1).
use Prim.Native.Nat.{ℕ}
use mathlib.Core.Bool.{Bool, false}
use patchhub.Prelude.Tests.{eqb}

pub data ℤ : Type 0 where
  pos : ℕ → ℤ
  negsuc : ℕ → ℤ

abbrev pub is_pos : ℤ → ℕ → Bool
is_pos (pos n) k = eqb n k
is_pos (negsuc n) k = false
