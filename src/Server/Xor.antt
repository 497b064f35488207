-- ===== src/Server/Xor.antt =====
-- The exclusive or of words, digit by digit.
pub mod Folds
pub mod Answers
use prio_plus.Base.{
  ℕ, zero, suc, ◌+◌, ◌*◌, ◌/◌, ◌%◌, ◌^◌, ◌<◌, ◌≡◌, refl, ap, ◌∙◌, sym, arith, xor_value,
}
use mathlib.Core.Path.{ap₂}
use native.Mathlib.Nat.{pow-suc}

low : (a b x : ℕ) → ((a + b) % 2 + 2 * x) % 2 ≡ (a + b) % 2
low a b x = omega arith

high : (a b x : ℕ) → ((a + b) % 2 + 2 * x) / 2 ≡ x
high a b x = omega arith

pub xor_comm : (n a b : ℕ) → xor_value n a b ≡ xor_value n b a
unfolding xor_value
xor_comm zero a b = refl
xor_comm (suc n) a b = omega (arith, xor_comm n (a / 2) (b / 2))

pub xor_assoc : (n a b c : ℕ) → xor_value n (xor_value n a b) c ≡ xor_value n a (xor_value n b c)
unfolding xor_value
xor_assoc zero a b c = refl
xor_assoc (suc n) a b c =
    let x = xor_value n (a / 2) (b / 2) in
    let y = xor_value n (b / 2) (c / 2) in
    ap₂ (λ s t. s + 2 * t) (omega arith)
      (ap (λ t. xor_value n t (c / 2)) (high a b x)
        ∙ xor_assoc n (a / 2) (b / 2) (c / 2)
        ∙ ap (xor_value n (a / 2)) (sym (high b c y)))

-- A result of the operation is a word already.
pub xor_zero : (n a b : ℕ) → xor_value n 0 (xor_value n a b) ≡ xor_value n a b
unfolding xor_value
xor_zero zero a b = refl
xor_zero (suc n) a b =
    let x = xor_value n (a / 2) (b / 2) in
    ap₂ (λ s t. s + 2 * t) (omega arith)
      (ap (xor_value n 0) (high a b x) ∙ xor_zero n (a / 2) (b / 2))

pub xor_medial :
    (n a b s t : ℕ)
    → xor_value n (xor_value n a s) (xor_value n b t)
      ≡ xor_value n (xor_value n a b) (xor_value n s t)
xor_medial n a b s t =
    xor_assoc n a s (xor_value n b t)
    ∙ ap (xor_value n a)
        (sym (xor_assoc n s b t) ∙ ap (λ x. xor_value n x t) (xor_comm n s b) ∙ xor_assoc n b s t)
    ∙ sym (xor_assoc n a b (xor_value n s t))

pub xor_self : (n a : ℕ) → xor_value n a a ≡ 0
unfolding xor_value
xor_self zero a = refl
xor_self (suc n) a = omega (arith, xor_self n (a / 2))

pub xor-lt : (n a b : ℕ) → xor_value n a b < 2 ^ n
unfolding xor_value
xor-lt zero a b = omega arith
xor-lt (suc n) a b = omega (arith, pow-suc 2 n, xor-lt n (a / 2) (b / 2))

-- Words whose exclusive or is 0 are equal.
pub eq_of_xor : (n a b : ℕ) → a < 2 ^ n → b < 2 ^ n → xor_value n a b ≡ 0 → a ≡ b
unfolding xor_value
eq_of_xor zero a b ha hb h = omega arith
eq_of_xor (suc n) a b ha hb h =
    let p = pow-suc 2 n in
    let e = eq_of_xor n (a / 2) (b / 2) (omega (arith, p)) (omega (arith, p)) (omega arith) in
    omega (arith, e)
