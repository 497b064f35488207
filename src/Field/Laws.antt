-- ===== src/Field/Laws.antt =====
-- The interface, and the laws of the three modular operations that the program makes of it.
use prio_plus.Base.{
  ℕ, ◌+◌, ◌*◌, ◌/◌, ◌%◌, ◌^◌, ◌<◌, ◌-◌, ◌≡◌, Bool, bit, arith, Cong, cong_of_eq, ◌▸◌, mod-Cong,
  add-Cong_cancel, cong_sym, eq_of_cong, ap, ◌∙◌,
}
use native.Mathlib.Nat.{mod-lt}

pub record Field : Type 0 where
  -- `Int_Modulus`.
  pub modulus : ℕ
  pub modulus_pos : 0 < modulus
  pub fmpz_add : ℕ → ℕ → ℕ
  pub fmpz_mul : ℕ → ℕ → ℕ
  pub fmpz_mod : ℕ → ℕ → ℕ
  -- `fmpz_sub(t, a, b)` and then `fmpz_mod(t, t, p)`.
  pub fmpz_sub_mod : ℕ → ℕ → ℕ → ℕ
  pub fmpz_is_odd : ℕ → Bool
  pub fmpz_is_even : ℕ → Bool
  pub fmpz_tstbit : ℕ → ℕ → Bool
  pub fmpz_add_lem : (a b : ℕ) → fmpz_add a b ≡ a + b
  pub fmpz_mul_lem : (a b : ℕ) → fmpz_mul a b ≡ a * b
  pub fmpz_mod_lem : (a p : ℕ) → 0 < p → fmpz_mod a p ≡ a % p
  pub fmpz_sub_mod-lt : (a b p : ℕ) → 0 < p → fmpz_sub_mod a b p < p
  pub fmpz_sub_mod_lem : (a b p : ℕ) → 0 < p → (fmpz_sub_mod a b p + b) % p ≡ a % p
  pub fmpz_is_odd_lem : (a : ℕ) → bit (fmpz_is_odd a) ≡ a % 2
  pub fmpz_is_even_lem : (a : ℕ) → bit (fmpz_is_even a) ≡ 1 - a % 2
  pub fmpz_tstbit_lem : (a i : ℕ) → bit (fmpz_tstbit a i) ≡ a / 2 ^ i % 2

module _ (K : Field) where
  open K use {modulus, modulus_pos}

  -- `fmpz_add` and then `fmpz_mod` by `Int_Modulus`; so too for the others.
  unfoldable pub add_mod : ℕ → ℕ → ℕ
  add_mod a b = K.fmpz_mod (K.fmpz_add a b) modulus

  unfoldable pub mul_mod : ℕ → ℕ → ℕ
  mul_mod a b = K.fmpz_mod (K.fmpz_mul a b) modulus

  unfoldable pub sub_mod : ℕ → ℕ → ℕ
  sub_mod a b = K.fmpz_sub_mod a b modulus

  pub add_mod_lem : (a b : ℕ) → add_mod a b ≡ (a + b) % modulus
  unfolding add_mod
  add_mod_lem a b =
      K.fmpz_mod_lem _ modulus modulus_pos ∙ ap (λ x. x % modulus) (K.fmpz_add_lem a b)

  pub mul_mod_lem : (a b : ℕ) → mul_mod a b ≡ (a * b) % modulus
  unfolding mul_mod
  mul_mod_lem a b =
      K.fmpz_mod_lem _ modulus modulus_pos ∙ ap (λ x. x % modulus) (K.fmpz_mul_lem a b)

  pub add_mod-Cong : (a b : ℕ) → Cong modulus (add_mod a b) (a + b)
  add_mod-Cong a b = cong_of_eq modulus (add_mod_lem a b) ▸ mod-Cong modulus (a + b)

  pub mul_mod-Cong : (a b : ℕ) → Cong modulus (mul_mod a b) (a * b)
  mul_mod-Cong a b = cong_of_eq modulus (mul_mod_lem a b) ▸ mod-Cong modulus (a * b)

  pub sub_mod-Cong : (a b : ℕ) → Cong modulus (sub_mod a b + b) a
  unfolding sub_mod
  sub_mod-Cong a b = record { same = K.fmpz_sub_mod_lem a b modulus modulus_pos }

  pub add_mod-lt : (a b : ℕ) → add_mod a b < modulus
  add_mod-lt a b = omega (arith, add_mod_lem a b, mod-lt (a + b) modulus_pos)

  pub mul_mod-lt : (a b : ℕ) → mul_mod a b < modulus
  mul_mod-lt a b = omega (arith, mul_mod_lem a b, mod-lt (a * b) modulus_pos)

  pub sub_mod-lt : (a b : ℕ) → sub_mod a b < modulus
  unfolding sub_mod
  sub_mod-lt a b = K.fmpz_sub_mod-lt a b modulus modulus_pos

  -- `a - b` is what `b` is taken away from: the laws of subtraction come from this one.
  pub sub_mod_of_add : (x a b : ℕ) → Cong modulus (x + b) a → Cong modulus (sub_mod a b) x
  sub_mod_of_add x a b h = add-Cong_cancel b modulus_pos (sub_mod-Cong a b ▸ cong_sym h)

  -- Where the minuend's residue is known, the difference is known.
  pub sub_mod-exact : (x a b : ℕ) → x < modulus → Cong modulus (x + b) a → sub_mod a b ≡ x
  sub_mod-exact x a b h e = eq_of_cong (sub_mod-lt a b) h (sub_mod_of_add x a b e)
