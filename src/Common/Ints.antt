-- ===== src/Common/Ints.antt =====
-- Signed results of C functions, over the native numbers, and the widths of C's integers.
use Prim.Native.Nat.{ℕ, suc, ◌+◌, ◌-◌, ◌%◌}
use mathlib.Core.Bool.{Bool, true, false}

-- `negsuc n` is -(n + 1).
pub data ℤ : Type 0 where
  pos : ℕ → ℤ
  negsuc : ℕ → ℤ

-- `x < 0`
abbrev pub is_neg : ℤ → Bool
is_neg (pos n) = false
is_neg (negsuc n) = true

-- 2 ^ 16, 2 ^ 32 and 2 ^ 64.
abbrev pub u16_mod : ℕ
u16_mod = 65536

abbrev pub u32_mod : ℕ
u32_mod = 4294967296

abbrev pub u64_mod : ℕ
u64_mod = 18446744073709551616

-- The bit pattern of a signed value in an unsigned type of 2 ^ w values.
abbrev pub wrap : ℕ → ℤ → ℕ
wrap m (pos n) = n % m
wrap m (negsuc n) = (m - suc (n % m)) % m

-- `n++` and `n--` on a 32-bit integer, by its bit pattern.
abbrev pub inc32 : ℕ → ℕ
inc32 n = (n + 1) % u32_mod

abbrev pub dec32 : ℕ → ℕ
dec32 n = (n + u32_mod - 1) % u32_mod

-- `a - b` on `size_t`.
abbrev pub sub64 : ℕ → ℕ → ℕ
sub64 a b = (a + u64_mod - b % u64_mod) % u64_mod
