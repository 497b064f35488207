-- ===== src/Transform.antt =====
-- poly/fft.c: the discrete Fourier transform modulo a prime. An array is a function of the index, of
-- which the first entries are set. The scratch arrays hold nothing that outlives a call: each call
-- gives the rest of them to the next. `fmpz_invmod` of FLINT is a parameter.
pub mod Sums
pub mod Values
pub mod Interpolation
pub mod Roots
use prio_plus.Base.{
  ℕ, zero, suc, ◌+◌, ◌*◌, ◌/◌, ◌%◌, Bool, true, false, Option, none, some, ◌==◌, if◌then◌else◌,
}
use prio_plus.Field.{Field, add_mod, mul_mod, sub_mod}
use prio_plus.Correlated.{◌>>=◌}

-- `out[2*i]` and `out[2*i + 1]` from the two halves.
abbrev pub weave : (even odd : ℕ → ℕ) → ℕ → ℕ
weave even odd i = if i % 2 == 0 then even (i / 2) else odd (i / 2)

module _ (K : Field) where
  -- `fft_recurse`; the fuel bounds the depth of the calls.
  unfoldable pub fft_recurse : (fuel n : ℕ) (roots ys : ℕ → ℕ) → Option (ℕ → ℕ)
  fft_recurse zero n roots ys = none
  fft_recurse (suc fuel) n roots ys =
      let h = n / 2 in
      let roots_sub : ℕ → ℕ = λ i. roots (2 * i) in
      let first = fft_recurse fuel h roots_sub (λ i. add_mod K (ys i) (ys (i + h))) in
      let second =
        fft_recurse fuel h roots_sub (λ i. mul_mod K (sub_mod K (ys i) (ys (i + h))) (roots i)) in
      if n == 1
      then some (λ i. ys 0)
      else (first >>= λ even. second >>= λ odd. some (weave even odd))

  -- `fft_interpolate`, modulo `Int_Modulus`. A number of points is an `int`: 32 calls are enough.
  unfoldable pub fft_interpolate :
      (invmod : ℕ → ℕ → ℕ) (n_points : ℕ) (roots ys : ℕ → ℕ) (invert : Bool) → Option (ℕ → ℕ)
  unfolding fft_recurse
  fft_interpolate invmod n_points roots ys invert = do
    out ← fft_recurse 32 n_points roots ys
    some (if invert then (λ i. mul_mod K (out i) (invmod n_points K.modulus)) else out)
