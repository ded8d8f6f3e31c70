-- ===== src/Prelude/Words.antt =====
-- Machine words: unsigned integers as numbers below a power of two, with the wrap-around written out.
use cctop.Prelude.{ℕ, ◌+◌, ◌-◌, ◌*◌, ◌%◌, ◌^◌, ◌<◌, ◌≡◌, arith}

abbrev pub u16_mod : ℕ
u16_mod = 2 ^ 16

abbrev pub u32_mod : ℕ
u32_mod = 2 ^ 32

abbrev pub u64_mod : ℕ
u64_mod = 2 ^ 64

-- `uint64_t` arithmetic
unfoldable pub add64 : ℕ → ℕ → ℕ
add64 a b = (a + b) % u64_mod

unfoldable pub sub64 : ℕ → ℕ → ℕ
sub64 a b = (a + u64_mod - b) % u64_mod

unfoldable pub mul64 : ℕ → ℕ → ℕ
mul64 a b = (a * b) % u64_mod

-- A value of type `uint16_t`.
abbrev pub to_u16 : ℕ → ℕ
to_u16 n = n % u16_mod

-- The difference of two readings of a counter is what the counter moved on by, also across a wrap.
pub sub64-add64 : (a d : ℕ) → a < u64_mod → d < u64_mod → sub64 (add64 a d) a ≡ d
unfolding sub64 add64
sub64-add64 a d ha hd = omega arith
