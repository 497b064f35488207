-- ===== src/Transform/Values.antt =====
-- `fft_interpolate` computes the transform.
use prio_plus.Base.{
  ℕ, zero, suc, ◌+◌, ◌*◌, ◌/◌, ◌%◌, ◌^◌, ◌<◌, ◌≡◌, refl, ap, sym, false, some, ◌==◌, arith, Cong,
  ◌▸◌, cong_of_eq, cong_refl, cong_sym, add-Cong, mul-Cong, add-Cong_cancel, Bool-cases, inl, inr,
  ==_iff,
}
use native.Mathlib.Nat.{pow-suc}
use prio_plus.Ot.IntSum.Step.{pow_pos}
use prio_plus.Field.{Field, add_mod, mul_mod, sub_mod, add_mod-Cong, mul_mod-Cong, sub_mod-Cong}
use prio_plus.Transform.{weave, fft_recurse}
use prio_plus.Transform.Sums.{sum_below, sum_below-Cong, sum_below-halves}

-- The transform of `n` points at the index `i`, for the powers `w` of a root of unity.
abbrev pub transform : (n : ℕ) (w ys : ℕ → ℕ) (i : ℕ) → ℕ
transform n w ys i = sum_below n (λ j. ys j * w (i * j))

square : (u : ℕ) → u * u + u ≡ u * (u + 1)
square u = grind arith

spread : (a b u : ℕ) → (a + b) * u ≡ a * u + b * u
spread a b u = grind arith

regroup : (a b u m : ℕ) → a * u + b * u * (m + 1) ≡ a * u + b * (u * m) + b * u
regroup a b u m = grind arith

times : (d r u : ℕ) → d * r * u ≡ d * (r * u)
times d r u = grind arith

module _ (K : Field) where
  open K use {modulus, modulus_pos}

  -- Powers of an element, modulo `Int_Modulus`.
  pub record ArePowers (w : ℕ → ℕ) : Type 0 where
    pub one : Cong modulus (w 0) 1
    pub product : (i j : ℕ) → Cong modulus (w (i + j)) (w i * w j)

  -- `w (2 ^ k)` is 1, because halfway there is -1.
  abbrev pub IsRoot : (k : ℕ) → (ℕ → ℕ) → Type 0
  IsRoot zero w = Unit {0}
  IsRoot (suc k) w = Cong modulus (w (2 ^ k) + 1) 0

  next-ArePowers : (w : ℕ → ℕ) → ArePowers w → ArePowers (λ i. w (2 * i))
  next-ArePowers w h = record {
    one = h.one;
    product = λ i j.
        let e : 2 * (i + j) ≡ 2 * i + 2 * j = omega arith in rw e (h.product (2 * i) (2 * j));
  }

  next-IsRoot : (k : ℕ) (w : ℕ → ℕ) → IsRoot (suc k) w → IsRoot k (λ i. w (2 * i))
  next-IsRoot zero w h = tt
  next-IsRoot (suc k) w h = let e : 2 * 2 ^ k ≡ 2 ^ suc k = omega (arith, pow-suc 2 k) in rw e h

  -- The square of -1.
  square_one : (u : ℕ) → Cong modulus (u + 1) 0 → Cong modulus (u * u) 1
  square_one u h = add-Cong_cancel u modulus_pos (
      cong_of_eq modulus (square u)
      ▸ mul-Cong (cong_refl modulus u) h
      ▸ cong_of_eq modulus (omega arith)
      ▸ cong_sym h
      ▸ cong_of_eq modulus (omega arith))

  period :
      (w : ℕ → ℕ) (h i : ℕ)
      → ArePowers w
      → Cong modulus (w h + 1) 0
      → Cong modulus (w (i * (h + h))) 1
  period w h zero a half = let e : 0 * (h + h) ≡ 0 = omega arith in rw e a.one
  period w h (suc i) a half =
      let e : suc i * (h + h) ≡ i * (h + h) + (h + h) = omega arith in
      rw e (
        a.product (i * (h + h)) (h + h)
        ▸ mul-Cong (period w h i a half) (a.product h h ▸ square_one (w h) half))

  -- One term of the two halves at an even index.
  even_term :
      (w : ℕ → ℕ) (h i j a b : ℕ)
      → ArePowers w
      → Cong modulus (w h + 1) 0
      → Cong modulus (add_mod K a b * w (2 * (i * j))) (a * w (2 * i * j) + b * w (2 * i * (j + h)))
  even_term w h i j a b p half =
      let e : 2 * i * j ≡ 2 * (i * j) = grind arith in
      let e' : 2 * i * (j + h) ≡ 2 * (i * j) + i * (h + h) = grind arith in
      let u = w (2 * (i * j)) in
      let turn : Cong modulus (w (2 * (i * j) + i * (h + h))) u =
        p.product (2 * (i * j)) (i * (h + h))
        ▸ mul-Cong (cong_refl modulus u) (period w h i p half)
        ▸ cong_of_eq modulus (omega arith) in
      rw (e, e')
        (mul-Cong (add_mod-Cong K a b) (cong_refl modulus u)
          ▸ cong_of_eq modulus (spread a b u)
          ▸ add-Cong (cong_refl modulus (a * u)) (mul-Cong (cong_refl modulus b) (cong_sym turn)))

  -- `d` is `a - b`, and `m` is -1.
  difference :
      (d a b u m : ℕ)
      → Cong modulus (d + b) a
      → Cong modulus (m + 1) 0
      → Cong modulus (d * u) (a * u + b * (u * m))
  difference d a b u m h neg = add-Cong_cancel (b * u) modulus_pos (
      cong_of_eq modulus (sym (spread d b u))
      ▸ mul-Cong h (cong_refl modulus u)
      ▸ cong_of_eq modulus (omega arith)
      ▸ add-Cong (cong_refl modulus (a * u)) (mul-Cong (cong_refl modulus (b * u)) (cong_sym neg))
      ▸ cong_of_eq modulus (regroup a b u m))

  -- One term of the two halves at an odd index.
  odd_term :
      (w : ℕ → ℕ) (h i j a b r : ℕ)
      → ArePowers w
      → Cong modulus (w h + 1) 0
      → Cong modulus r (w j)
      → Cong modulus
          (mul_mod K (sub_mod K a b) r * w (2 * (i * j)))
          (a * w ((2 * i + 1) * j) + b * w ((2 * i + 1) * (j + h)))
  odd_term w h i j a b r p half root =
      let e : (2 * i + 1) * j ≡ j + 2 * (i * j) = grind arith in
      let e' : (2 * i + 1) * (j + h) ≡ j + 2 * (i * j) + (h + i * (h + h)) = grind arith in
      let u = w (2 * (i * j)) in
      let here = p.product j (2 * (i * j)) in
      let turn : Cong modulus (w (h + i * (h + h))) (w h) =
        p.product h (i * (h + h))
        ▸ mul-Cong (cong_refl modulus (w h)) (period w h i p half)
        ▸ cong_of_eq modulus (omega arith) in
      let there = p.product (j + 2 * (i * j)) (h + i * (h + h)) ▸ mul-Cong here turn in
      rw (e, e')
        (mul-Cong
            (mul_mod-Cong K (sub_mod K a b) r ▸ mul-Cong (cong_refl modulus (sub_mod K a b)) root)
            (cong_refl modulus u)
          ▸ cong_of_eq modulus (times (sub_mod K a b) (w j) u)
          ▸ difference (sub_mod K a b) a b (w j * u) (w h) (sub_mod-Cong K a b) half
          ▸ cong_sym (
              add-Cong (mul-Cong (cong_refl modulus a) here)
                (mul-Cong (cong_refl modulus b) there)))

  -- The two halves.
  even_half :
      (w ys : ℕ → ℕ) (h n i : ℕ)
      → n ≡ h + h
      → ArePowers w
      → Cong modulus (w h + 1) 0
      → Cong modulus
          (transform h (λ j. w (2 * j)) (λ j. add_mod K (ys j) (ys (j + h))) i)
          (transform n w ys (2 * i))
  even_half w ys h n i e p half =
      sum_below-Cong modulus h _ _ (λ j lt. even_term w h i j (ys j) (ys (j + h)) p half)
      ▸ cong_of_eq modulus (sym (sum_below-halves h n _ e))

  odd_half :
      (w roots ys : ℕ → ℕ) (h n i : ℕ)
      → n ≡ h + h
      → ArePowers w
      → Cong modulus (w h + 1) 0
      → ((j : ℕ) → j < n → Cong modulus (roots j) (w j))
      → Cong modulus
          (transform h
            (λ j. w (2 * j))
            (λ j. mul_mod K (sub_mod K (ys j) (ys (j + h))) (roots j))
            i)
          (transform n w ys (2 * i + 1))
  odd_half w roots ys h n i e p half agree =
      sum_below-Cong modulus h _ _ (λ j lt.
        odd_term w h i j (ys j) (ys (j + h)) (roots j) p half (agree j (omega (arith, lt, e))))
      ▸ cong_of_eq modulus (sym (sum_below-halves h n _ e))

  weave-transform :
      (w even odd ys : ℕ → ℕ) (h n i : ℕ)
      → n ≡ h + h
      → i < n
      → ((i : ℕ) → i < h → Cong modulus (even i) (transform n w ys (2 * i)))
      → ((i : ℕ) → i < h → Cong modulus (odd i) (transform n w ys (2 * i + 1)))
      → Cong modulus (weave even odd i) (transform n w ys i)
  weave-transform w even odd ys h n i e lt he ho = elim (Bool-cases (i % 2 == 0)) [
    | inl t ↦
        let whole : 2 * (i / 2) ≡ i = omega (arith, (==_iff (i % 2) 0).0 t) in
        rw t (he (i / 2) (omega (arith, lt, e)) ▸ cong_of_eq modulus (ap (transform n w ys) whole))
    | inr t ↦
        let rest : i % 2 ≡ 1 = ground arith in
        let whole : 2 * (i / 2) + 1 ≡ i = omega (arith, rest) in
        rw t (ho (i / 2) (omega (arith, lt, e)) ▸ cong_of_eq modulus (ap (transform n w ys) whole))
  ]

  fft_step :
      (fuel h n : ℕ) (roots ys even odd : ℕ → ℕ)
      → 0 < h
      → n ≡ h + h
      → fft_recurse K fuel h (λ i. roots (2 * i)) (λ i. add_mod K (ys i) (ys (i + h))) ≡ some even
      → fft_recurse K fuel h
          (λ i. roots (2 * i))
          (λ i. mul_mod K (sub_mod K (ys i) (ys (i + h))) (roots i))
        ≡ some odd
      → fft_recurse K (suc fuel) n roots ys ≡ some (weave even odd)
  unfolding fft_recurse
  fft_step fuel h n roots ys even odd pos e first second =
      let half : n / 2 ≡ h = omega (arith, e) in
      let more : (n == 1) ≡ false = ground arith in rw (more, half, first, second) refl

  single :
      (fuel : ℕ) (roots ys : ℕ → ℕ) → fft_recurse K (suc fuel) (2 ^ 0) roots ys ≡ some (λ i. ys 0)
  unfolding fft_recurse
  single fuel roots ys = refl

  point : (w ys : ℕ → ℕ) (i : ℕ) → ArePowers w → i < 1 → Cong modulus (ys 0) (transform 1 w ys i)
  point w ys i p below =
      let e : i * 0 ≡ 0 = omega arith in
      rw e (
        cong_of_eq modulus (omega arith)
        ▸ add-Cong (cong_refl modulus 0) (mul-Cong (cong_refl modulus (ys 0)) (cong_sym p.one)))

  pub fft_recurse-transform :
      (k fuel : ℕ) (w roots ys : ℕ → ℕ)
      → k < fuel
      → ArePowers w
      → IsRoot k w
      → ((i : ℕ) → i < 2 ^ k → Cong modulus (roots i) (w i))
      → (out : ℕ → ℕ) × (fft_recurse K fuel (2 ^ k) roots ys ≡ some out)
        × ((i : ℕ) → i < 2 ^ k → Cong modulus (out i) (transform (2 ^ k) w ys i))
  fft_recurse-transform k zero w roots ys lt p root agree = absurd (omega (arith, lt))
  fft_recurse-transform zero (suc fuel) w roots ys lt p root agree =
      (λ i. ys 0, single fuel roots ys, λ i below. point w ys i p below)
  fft_recurse-transform (suc k) (suc fuel) w roots ys lt p root agree =
      let h = 2 ^ k in
      let e : 2 ^ suc k ≡ h + h = omega (arith, pow-suc 2 k) in
      let next_agree : (i : ℕ) → i < h → Cong modulus (roots (2 * i)) (w (2 * i)) =
        λ i below. agree (2 * i) (omega (arith, below, e)) in
      let (even, run0, at0) =
        fft_recurse-transform k fuel (λ i. w (2 * i)) (λ i. roots (2 * i))
          (λ i. add_mod K (ys i) (ys (i + h))) (omega (arith, lt)) (next-ArePowers w p)
          (next-IsRoot k w root) next_agree in
      let (odd, run1, at1) =
        fft_recurse-transform k fuel (λ i. w (2 * i)) (λ i. roots (2 * i))
          (λ i. mul_mod K (sub_mod K (ys i) (ys (i + h))) (roots i)) (omega (arith, lt))
          (next-ArePowers w p) (next-IsRoot k w root) next_agree in
      (
        weave even odd,
        fft_step fuel h (2 ^ suc k) roots ys even odd (pow_pos k) e run0 run1,
        λ i below.
            weave-transform w even odd ys h (2 ^ suc k) i e below
              (λ j lt_j. at0 j lt_j ▸ even_half w ys h (2 ^ suc k) j e p root)
              (λ j lt_j. at1 j lt_j ▸ odd_half w roots ys h (2 ^ suc k) j e p root agree),
      )
