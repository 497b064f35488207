-- ===== src/Base/Word.antt =====
-- `uint64_t` arithmetic: a word is a number below 2 ^ 64, and every operation wraps.
use Prim.Native.Nat.{zero, suc, ◌/◌, ℕ, ◌+◌, ◌-◌, ◌*◌, ◌%◌, ◌^◌}

abbrev pub u64 : ℕ
u64 = 2 ^ 64

abbrev pub add64 : ℕ → ℕ → ℕ
add64 a b = (a + b) % u64

-- `b` is a word, so 2 ^ 64 covers it.
abbrev pub sub64 : ℕ → ℕ → ℕ
sub64 a b = (a + u64 - b) % u64

abbrev pub mul64 : ℕ → ℕ → ℕ
mul64 a b = a * b % u64

-- The low `n` bits of the exclusive or of two numbers, digit by digit.
unfoldable pub xor_value : (n a b : ℕ) → ℕ
xor_value zero a b = 0
xor_value (suc n) a b = (a + b) % 2 + 2 * xor_value n (a / 2) (b / 2)
