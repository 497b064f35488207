-- ===== src/Field/Native.antt =====
-- An instance of the interface over the native numbers, at any modulus: the laws can be met, and
-- the tests and examples run.
use prio_plus.Base.{
  ℕ, ◌+◌, ◌*◌, ◌-◌, ◌/◌, ◌%◌, ◌^◌, ◌<◌, ◌≡◌, refl, bit, arith, ◌==◌, ◌▸◌, cong_of_eq, mod-Cong,
  add-Cong, cong_refl, add_mul-Cong,
}
use native.Mathlib.Nat.{mod-lt, mod-add-div'}
use prio_plus.Field.Laws.{Field}

abbrev nat_sub_mod : ℕ → ℕ → ℕ → ℕ
nat_sub_mod a b p = (a + (p - b % p)) % p

pub nat_sub_mod_lem : (a b p : ℕ) → 0 < p → (nat_sub_mod a b p + b) % p ≡ a % p
nat_sub_mod_lem a b p h =
    (add-Cong (mod-Cong p (a + (p - b % p))) (cong_refl p b)
      ▸ cong_of_eq p (omega (arith, mod-add-div' b p, mod-lt b h))
      ▸ add_mul-Cong p a (b / p + 1)).same

pub bit-is_odd : (a : ℕ) → bit (a % 2 == 1) ≡ a % 2
bit-is_odd a = ground arith

pub bit-is_even : (a : ℕ) → bit (a % 2 == 0) ≡ 1 - a % 2
bit-is_even a = ground arith

abbrev pub native_field : (p : ℕ) → 0 < p → Field
native_field p h = record {
  modulus = p;
  modulus_pos = h;
  fmpz_add = λ a b. a + b;
  fmpz_mul = λ a b. a * b;
  fmpz_mod = λ a m. a % m;
  fmpz_sub_mod = nat_sub_mod;
  fmpz_is_odd = λ a. a % 2 == 1;
  fmpz_is_even = λ a. a % 2 == 0;
  fmpz_tstbit = λ a i. a / 2 ^ i % 2 == 1;
  fmpz_add_lem = λ a b. refl;
  fmpz_mul_lem = λ a b. refl;
  fmpz_mod_lem = λ a m _. refl;
  fmpz_sub_mod-lt = λ a b m pos. mod-lt _ pos;
  fmpz_sub_mod_lem = nat_sub_mod_lem;
  fmpz_is_odd_lem = bit-is_odd;
  fmpz_is_even_lem = bit-is_even;
  fmpz_tstbit_lem = λ a i. bit-is_odd (a / 2 ^ i);
}

-- The modulus of constants.h, 0x8000000000080001.
abbrev pub int_modulus : ℕ
int_modulus = 0x8000000000080001

pub int_modulus_pos : 0 < int_modulus
int_modulus_pos = omega arith

abbrev pub prio_field : Field
prio_field = native_field int_modulus int_modulus_pos

-- A small prime field for examples that are followed by hand.
pub thirteen_pos : 0 < 13
thirteen_pos = omega arith

abbrev pub small_field : Field
small_field = native_field 13 thirteen_pos
