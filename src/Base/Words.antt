-- ===== src/Base/Words.antt =====
-- `ub2_`, `ub4_` and `b4_` of common/BaseType.h: unsigned arithmetic wraps.
use Prim.Native.Nat.{ℕ, ◌+◌, ◌-◌, ◌%◌, ◌^◌}
use mathlib.Core.Bool.{Bool, ◌&&◌}
use g_max_linked.Base.Tests.{ltb, ◌==◌}

abbrev pub u16 : ℕ → ℕ
u16 n = n % 2 ^ 16

abbrev pub u32 : ℕ → ℕ
u32 n = n % 2 ^ 32

abbrev pub u64 : ℕ → ℕ
u64 n = n % 2 ^ 64

abbrev pub add32 : ℕ → ℕ → ℕ
add32 a b = (a + b) % 2 ^ 32

abbrev pub sub32 : ℕ → ℕ → ℕ
sub32 a b = (a + 2 ^ 32 - b) % 2 ^ 32

-- `d == (b4_)u`, for a difference of pointers that is not negative: a value of `u` from 2^31 on
-- becomes negative.
abbrev pub eq_b4 : ℕ → ℕ → Bool
eq_b4 d u = d == u && ltb u (2 ^ 31)
