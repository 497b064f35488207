-- ===== src/Base/Congruence.antt =====
-- Congruence modulo `p` on the natural numbers: equality of the remainders.
use Prim.Native.Nat.{ℕ, zero, suc, ◌+◌, ◌*◌, ◌/◌, ◌%◌, ◌<◌}
use mathlib.Core.Path.{◌≡◌, refl, sym, ap, ap₂, ◌∙◌}
use native.Mathlib.Omega.{arith}
use native.Mathlib.Nat.{mod-mod, mod-eq_of_lt, add-mod, add-mul-mod_self_right, mod-add-div'}

pub record Cong (p a b : ℕ) : Type 0 where
  pub same : a % p ≡ b % p

pub cong_refl : (p a : ℕ) → Cong p a a
cong_refl p a = record { same = refl }

pub cong_of_eq : (p : ℕ) {a b : ℕ} → a ≡ b → Cong p a b
cong_of_eq p e = record { same = ap (λ x. x % p) e }

pub cong_sym : {p a b : ℕ} → Cong p a b → Cong p b a
cong_sym h = record { same = sym h.same }

infixr 30 ◌▸◌
pub ◌▸◌ : {p a b c : ℕ} → Cong p a b → Cong p b c → Cong p a c
h ▸ k = record { same = h.same ∙ k.same }

pub mod-Cong : (p a : ℕ) → Cong p (a % p) a
mod-Cong p a = record { same = mod-mod a p }

pub add-Cong : {p a b c d : ℕ} → Cong p a b → Cong p c d → Cong p (a + c) (b + d)
add-Cong {p} {a} {b} {c} {d} h k = record {
  same = add-mod a c p ∙ ap₂ (λ x y. (x + y) % p) h.same k.same ∙ sym (add-mod b d p);
}

mul_split : (p a b : ℕ) → a * b ≡ a % p * (b % p) + (a % p * (b / p) + a / p * b) * p
mul_split p a b =
    let ea : a ≡ a % p + a / p * p = sym (mod-add-div' a p) in
    let eb : b ≡ b % p + b / p * p = sym (mod-add-div' b p) in
    omega (arith, ap (λ (t : ℕ). t * b) ea, ap (λ (t : ℕ). a % p * t) eb)

pub mul-mod : (p a b : ℕ) → Cong p (a * b) (a % p * (b % p))
mul-mod p a b = record {
  same =
      ap (λ x. x % p) (mul_split p a b)
      ∙ add-mul-mod_self_right (a % p * (b % p)) (a % p * (b / p) + a / p * b) p;
}

pub mul-Cong : {p a b c d : ℕ} → Cong p a b → Cong p c d → Cong p (a * c) (b * d)
mul-Cong {p} {a} {b} {c} {d} h k = record {
  same = (mul-mod p a c).same ∙ ap₂ (λ x y. (x * y) % p) h.same k.same ∙ sym (mul-mod p b d).same;
}

-- A multiple of the modulus drops out.
pub add_mul-Cong : (p a k : ℕ) → Cong p (a + k * p) a
add_mul-Cong p a k = record { same = add-mul-mod_self_right a k p }

-- A summand cancels: `c + (p - 1) * c` is a multiple of `p`.
pub add-Cong_cancel : {p a b : ℕ} (c : ℕ) → 0 < p → Cong p (a + c) (b + c) → Cong p a b
add-Cong_cancel {p = zero} c pos h = elim pos [ ]
add-Cong_cancel {p = suc q} {a} {b} c pos h =
    cong_sym (add_mul-Cong (suc q) a c)
    ▸ cong_of_eq (suc q) (omega arith)
    ▸ add-Cong h (cong_refl (suc q) (c * q))
    ▸ cong_of_eq (suc q) (omega arith)
    ▸ add_mul-Cong (suc q) b c

pub eq_of_cong : {p a b : ℕ} → a < p → b < p → Cong p a b → a ≡ b
eq_of_cong ha hb h = sym (mod-eq_of_lt ha) ∙ h.same ∙ mod-eq_of_lt hb
