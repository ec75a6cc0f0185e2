-- ===== src/Base/Int.antt =====
-- The integers over the native numbers, for the `i32` codes.
use Prim.Native.Nat.{ℕ}
use mathlib.Core.Bool.{Bool, false}
use tinyproto_rust.Base.Tests.{◌==◌}

-- `negsuc n` is -(n + 1).
pub data ℤ : Type 0 where
  pos : ℕ → ℤ
  negsuc : ℕ → ℤ

-- `code == -(n + 1)`
abbrev pub is_negsuc : ℕ → ℤ → Bool
is_negsuc n (pos m) = false
is_negsuc n (negsuc m) = m == n
