-- ===== src/Base/Int.antt =====
-- Signed integers over the native numbers, and the casts of two's complement.
use Prim.Native.Nat.{ℕ, ◌-◌, ◌%◌, ◌^◌}

-- `negsuc n` is -(n + 1).
pub data ℤ : Type 0 where
  pos : ℕ → ℤ
  negsuc : ℕ → ℤ

-- `static_cast<u32>` of a signed value: the residue modulo 2 ^ 32.
abbrev pub cast_u32 : ℤ → ℕ
cast_u32 (pos n) = n % 2 ^ 32
cast_u32 (negsuc n) = 2 ^ 32 - 1 - n % 2 ^ 32

-- `static_cast<u64>` of a signed value.
abbrev pub cast_u64 : ℤ → ℕ
cast_u64 (pos n) = n % 2 ^ 64
cast_u64 (negsuc n) = 2 ^ 64 - 1 - n % 2 ^ 64
