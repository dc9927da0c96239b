-- ===== src/Base/Words.antt =====
-- `ULONG` arithmetic: numbers below 2 ^ 32, shifts as products and quotients.
use Prim.Native.Nat.{ℕ, ◌*◌, ◌/◌, ◌%◌, ◌^◌}

abbrev pub u32_mod : ℕ
u32_mod = 2 ^ 32

abbrev pub shl : ℕ → ℕ → ℕ
shl x k = (x * 2 ^ k) % u32_mod

abbrev pub shr : ℕ → ℕ → ℕ
shr x k = x / 2 ^ k
