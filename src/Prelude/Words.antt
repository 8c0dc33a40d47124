-- ===== src/Prelude/Words.antt =====
-- Unsigned machine words: natural numbers with the wrap-around written out.
use Prim.Native.Nat.{ℕ, ◌+◌, ◌-◌, ◌%◌, ◌^◌}

abbrev pub u8_mod : ℕ
u8_mod = 2 ^ 8

abbrev pub u32_mod : ℕ
u32_mod = 2 ^ 32

abbrev pub u8 : ℕ → ℕ
u8 n = n % u8_mod

abbrev pub u32 : ℕ → ℕ
u32 n = n % u32_mod

-- uint32_t a - b
abbrev pub sub32 : ℕ → ℕ → ℕ
sub32 a b = (a + u32_mod - b) % u32_mod
