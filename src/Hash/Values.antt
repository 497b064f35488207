-- ===== src/Hash/Values.antt =====
-- `HashStore`: the number of bits of the range, and the values of a hash.
use prio_plus.Base.{
  ℕ, zero, suc, ◌+◌, ◌-◌, ◌*◌, ◌/◌, ◌%◌, ◌^◌, ◌<◌, ◌≤◌, ◌≡◌, ap, ◌∙◌, sym, ◌==◌, u64, sub64, arith,
  Cong, ◌▸◌, cong_of_eq, cong_refl, add-Cong, mul-Cong, mod-Cong, Bool-cases, inl, inr, ==_iff,
}
use native.Mathlib.Nat.{mod-lt, pow-suc, pow-zero, mod-eq_of_lt, pow-le-pow_right}
use prio_plus.Ot.IntSum.Step.{pow_pos}
use prio_plus.Field.{Field}
use prio_plus.Hash.{HashLib, bits_loop, hash_store, horner_loop, hash_eval}

-- The polynomial without its constant term.
abbrev pub poly : (j : ℕ) (coeffs : ℕ → ℕ) (x : ℕ) → ℕ
poly zero coeffs x = 0
poly (suc j) coeffs x = coeffs (suc j) * x ^ suc j + poly j coeffs x

horner : (out c x y rest : ℕ) → (out + c) * x * y + rest ≡ out * (y * x) + (c * (y * x) + rest)
horner out c x y rest = grind arith

pub power_word : (n : ℕ) → n < 64 → 2 ^ n < u64
power_word n h =
    let two : 0 < 2 = omega arith in
    let le = pow-le-pow_right two {i = n} {j = 63} (omega (arith, h)) in omega (arith, le)

module _ (K : Field) (L : HashLib) where
  step :
      (out c x l : ℕ)
      → 0 < l
      → Cong l (K.fmpz_mod (K.fmpz_mul (K.fmpz_add out c) x) l) ((out + c) * x)
  step out c x l pos =
      cong_of_eq l (
        K.fmpz_mod_lem _ l pos
        ∙ ap (λ (t : ℕ). t % l) (K.fmpz_mul_lem _ x ∙ ap (λ (t : ℕ). t * x) (K.fmpz_add_lem out c)))
      ▸ mod-Cong l ((out + c) * x)

  horner_loop-Cong :
      (j : ℕ) (coeffs : ℕ → ℕ) (x l out : ℕ)
      → 0 < l
      → Cong l (horner_loop K j coeffs x l out) (out * x ^ j + poly j coeffs x)
  unfolding horner_loop
  horner_loop-Cong zero coeffs x l out pos = cong_of_eq l (rw (pow-zero x) (omega arith))
  horner_loop-Cong (suc j) coeffs x l out pos =
      horner_loop-Cong j coeffs x l _ pos
      ▸ add-Cong (mul-Cong (step out (coeffs (suc j)) x l pos) (cong_refl l (x ^ j)))
          (cong_refl l (poly j coeffs x))
      ▸ cong_of_eq l (rw (pow-suc x j) (horner out (coeffs (suc j)) x (x ^ j) (poly j coeffs x)))

  horner_loop-lt :
      (j : ℕ) (coeffs : ℕ → ℕ) (x l out : ℕ) → 0 < l → out < l → horner_loop K j coeffs x l out < l
  unfolding horner_loop
  horner_loop-lt zero coeffs x l out pos h = h
  horner_loop-lt (suc j) coeffs x l out pos h =
      horner_loop-lt j coeffs x l _ pos (rw (K.fmpz_mod_lem _ l pos) (mod-lt _ pos))

  -- For a range that is not empty and inputs of less than 64 bits, a hash is a polynomial modulo
  -- `2 ^ l_bits` without its constant term, shifted down to `w_bits` bits, plus that term, modulo `w`;
  -- so it is below `w`.
  pub hash_eval-poly :
      (d l_bits w independence i x : ℕ)
      → 0 < w
      → l_bits < 64
      → (let h = hash_store L d l_bits w independence in
          (hash_eval K L h i x
            ≡ (poly h.degree (h.coeff i) x % 2 ^ l_bits / 2 ^ sub64 l_bits h.w_bits + h.coeff i 0)
              % w)
          × (hash_eval K L h i x < w))
  unfolding hash_eval hash_store
  hash_eval-poly d l_bits w independence i x pos bits =
      let h = hash_store L d l_bits w independence in
      let pos_l : 0 < 2 ^ l_bits = pow_pos l_bits in
      let word : 2 ^ l_bits % u64 ≡ 2 ^ l_bits = mod-eq_of_lt (power_word l_bits bits) in
      let out = horner_loop-Cong h.degree (h.coeff i) x (2 ^ l_bits) 0 pos_l in
      let small = horner_loop-lt h.degree (h.coeff i) x (2 ^ l_bits) 0 pos_l pos_l in
      let value : horner_loop K h.degree (h.coeff i) x (2 ^ l_bits) 0
          ≡ poly h.degree (h.coeff i) x % 2 ^ l_bits =
        sym (mod-eq_of_lt small) ∙ out.same ∙ ap (λ (t : ℕ). t % 2 ^ l_bits) (omega arith) in
      let result =
        K.fmpz_mod_lem _ w pos
        ∙ ap (λ (t : ℕ). t % w)
            (K.fmpz_add_lem _ _
              ∙ ap (λ (t : ℕ). t + h.coeff i 0)
                  (L.fmpz_fdiv_q_2exp_lem _ _
                    ∙ ap (λ (t : ℕ). t / 2 ^ sub64 l_bits h.w_bits) (rw word value))) in
      (result, rw result (mod-lt _ pos))

bits_loop-bounds :
    (fuel v b : ℕ)
    → 1 ≤ v
    → v < 2 ^ suc fuel
    → (k : ℕ) × (bits_loop fuel v b ≡ b + k) × (2 ^ k ≤ v) × (v < 2 ^ suc k)
unfolding bits_loop
bits_loop-bounds zero v b pos h = (0, omega arith, pos, h)
bits_loop-bounds (suc fuel) v b pos h = elim (Bool-cases (v / 2 == 0)) [
  | inl e ↦ let z = (==_iff (v / 2) 0).0 e in (0, rw e (omega arith), pos, omega (arith, z))
  | inr e ↦
      let half : v / 2 < 2 ^ suc fuel = let p = pow-suc 2 (suc fuel) in omega (arith, h, p) in
      let some_left : 1 ≤ v / 2 = ground arith in
      let (k, run, low, high) = bits_loop-bounds fuel (v / 2) (suc b) some_left half in
      let p = pow-suc 2 k in
      let q = pow-suc 2 (suc k) in
      (suc k, rw e (omega (arith, run)), omega (arith, low, p), omega (arith, high, q))
]

covers :
    (w k : ℕ)
    → 1 ≤ w
    → 2 ^ k ≤ w - 1
    → w - 1 < 2 ^ suc k
    → (w ≤ 2 ^ (1 + k)) × (2 ^ (1 + k - 1) < w)
covers w k pos low high =
    let e : 1 + k ≡ suc k = omega arith in
    let e' : suc k - 1 ≡ k = omega arith in rw (e, e') (omega (arith, high), omega (arith, low))

-- For a range of at least two values, `w_bits` is the least number of bits whose values cover it.
pub hash_store-bits :
    (L : HashLib) (d l_bits w independence : ℕ)
    → 2 ≤ w
    → w < u64
    → (let bits = (hash_store L d l_bits w independence).w_bits in
        (w ≤ 2 ^ bits) × (2 ^ (bits - 1) < w))
unfolding hash_store
hash_store-bits L d l_bits w independence two word =
    let last : sub64 w 1 ≡ w - 1 = omega arith in
    let (k, run, low, high) = bits_loop-bounds 64 (w - 1) 1 (omega arith) (omega arith) in
    rw (last, run) (covers w k (omega arith) low high)
