-- ===== src/Transform/Interpolation.antt =====
-- `fft_interpolate`, for the powers of a root of unity.
use prio_plus.Base.{
  ℕ, zero, suc, ◌+◌, ◌*◌, ◌^◌, ◌<◌, ◌≡◌, refl, Bool, true, false, some, if◌then◌else◌, arith, Cong,
  ◌▸◌, cong_of_eq, cong_refl, mul-Cong,
}
use native.Mathlib.Nat.{pow-suc, pow-zero}
use prio_plus.Field.{Field, mul_mod, mul_mod-Cong}
use prio_plus.Transform.{fft_interpolate}
use prio_plus.Transform.Values.{transform, ArePowers, IsRoot, fft_recurse-transform}

pub pow_add : (r i j : ℕ) → r ^ (i + j) ≡ r ^ i * r ^ j
pow_add r i zero = let e : i + 0 ≡ i = omega arith in rw (e, pow-zero r) (omega arith)
pow_add r i (suc j) =
    let e : i + suc j ≡ suc (i + j) = omega arith in
    rw (e, pow-suc r (i + j), pow-suc r j, pow_add r i j) (grind arith)

module _ (K : Field) (invmod : ℕ → ℕ → ℕ) where
  open K use {modulus}

  powers : (r : ℕ) → ArePowers K (λ j. r ^ j)
  powers r = record {
    one = cong_of_eq modulus (pow-zero r);
    product = λ i j. cong_of_eq modulus (pow_add r i j);
  }

  pub fft_interpolate-values :
      (k r : ℕ) (roots ys : ℕ → ℕ) (invert : Bool)
      → k < 32
      → IsRoot K k (λ j. r ^ j)
      → ((j : ℕ) → j < 2 ^ k → Cong modulus (roots j) (r ^ j))
      → (out : ℕ → ℕ) × (fft_interpolate K invmod (2 ^ k) roots ys invert ≡ some out)
        × ((i : ℕ)
            → i < 2 ^ k
            → Cong modulus (out i) (
                transform (2 ^ k) (λ j. r ^ j) ys i
                * (if invert then invmod (2 ^ k) modulus else 1)))
  unfolding fft_interpolate
  fft_interpolate-values k r roots ys true bits root agree =
      let (out, run, values) =
        fft_recurse-transform K k 32 (λ j. r ^ j) roots ys bits (powers r) root agree in
      (
        λ j. mul_mod K (out j) (invmod (2 ^ k) modulus),
        rw run refl,
        λ i below.
            mul_mod-Cong K (out i) (invmod (2 ^ k) modulus)
            ▸ mul-Cong (values i below) (cong_refl modulus (invmod (2 ^ k) modulus)),
      )
  fft_interpolate-values k r roots ys false bits root agree =
      let (out, run, values) =
        fft_recurse-transform K k 32 (λ j. r ^ j) roots ys bits (powers r) root agree in
      (out, rw run refl, λ i below. values i below ▸ cong_of_eq modulus (omega arith))

  -- For a power of two below 2 ^ 32 as the number of points, and `roots` that are the powers of an
  -- element whose power halfway is -1 modulo `Int_Modulus`: `fft_interpolate` ends, and its value at
  -- an index `i` is the sum of the `ys`, each times the power `i * j` of the element, and for `invert`
  -- times the inverse of the number of points.
  pub fft_interpolate-transform :
      (k r i : ℕ) (roots ys : ℕ → ℕ) (invert : Bool)
      → k < 32
      → IsRoot K k (λ j. r ^ j)
      → ((j : ℕ) → j < 2 ^ k → Cong modulus (roots j) (r ^ j))
      → i < 2 ^ k
      → (out : ℕ → ℕ) × (fft_interpolate K invmod (2 ^ k) roots ys invert ≡ some out)
        × Cong modulus
            (out i)
            (transform (2 ^ k) (λ j. r ^ j) ys i * (if invert then invmod (2 ^ k) modulus else 1))
  fft_interpolate-transform k r i roots ys invert bits root agree below =
      let (out, run, values) = fft_interpolate-values k r roots ys invert bits root agree in
      (out, run, values i below)
