-- ===== src/Prelude/Int.antt =====
-- Go's `int`, as an integer.
use Prim.Native.Nat.{ℕ}
use mathlib.Core.Bool.{Bool, true, false}
use linkbit.Prelude.Logic.{ltb}

-- `negsuc n` is -(n + 1).
pub data ℤ : Type 0 where
  pos : ℕ → ℤ
  negsuc : ℕ → ℤ

-- `n < z` and `z < n` for a number `n`.
abbrev pub ℕ_lt : ℕ → ℤ → Bool
ℕ_lt n (pos m) = ltb n m
ℕ_lt n (negsuc m) = false

abbrev pub lt_ℕ : ℤ → ℕ → Bool
lt_ℕ (pos m) n = ltb m n
lt_ℕ (negsuc m) n = true
