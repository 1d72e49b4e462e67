-- ===== src/Prelude/Int.antt =====
-- Go's `int` fields, which the program compares with zero and with lengths. `negsuc n` is -(n + 1).
use Prim.Native.Nat.{ℕ, zero, suc}
use mathlib.Core.Bool.{Bool, true, false}
use k8s_chaos.Prelude.Tests.{ltb}

pub data ℤ : Type 0 where
  pos : ℕ → ℤ
  negsuc : ℕ → ℤ

-- `n <= 0`.
abbrev pub is_nonpos : ℤ → Bool
is_nonpos (pos zero) = true
is_nonpos (pos (suc n)) = false
is_nonpos (negsuc n) = true

-- `n > k`, for a length or a literal `k`.
abbrev pub exceeds : ℤ → ℕ → Bool
exceeds (pos n) k = ltb k n
exceeds (negsuc n) k = false

-- The value where the code has excluded negative ones.
abbrev pub to_ℕ : ℤ → ℕ
to_ℕ (pos n) = n
to_ℕ (negsuc n) = 0
