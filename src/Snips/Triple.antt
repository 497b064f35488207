-- ===== src/Snips/Triple.antt =====
-- The multiplication check by a Beaver triple, and the weighted sum of the values that must be 0.
use prio_plus.Base.{
  ℕ, suc, ◌+◌, ◌*◌, ◌≡◌, List, [], ◌∷◌, arith, Cong, ◌▸◌, cong_of_eq, cong_sym, cong_refl, add-Cong,
  mul-Cong,
}
use prio_plus.Field.{Field, add_mod, mul_mod, sub_mod, add_mod-Cong, mul_mod-Cong, sub_mod-Cong}
use prio_plus.Share.{cor, BeaverTripleShare}
use prio_plus.Share.Split.{AreTripleShares}
use prio_plus.Snips.{mul_check, rand_sum_loop}

product : (a b d e : ℕ) → (d + a) * (e + b) ≡ d * e + d * b + e * a + a * b
product a b d e = omega arith

module _ (K : Field) where
  open K use {modulus}

  -- `start` and what the steps of `mulCheck` add.
  mul_check-steps :
      (d e start a b c h : ℕ)
      → Cong modulus
          (sub_mod K (add_mod K (add_mod K (add_mod K start (mul_mod K d b)) (mul_mod K e a)) c) h
            + h)
          (start + d * b + e * a + c)
  mul_check-steps d e start a b c h =
      let x = add_mod K start (mul_mod K d b) in
      let y = add_mod K x (mul_mod K e a) in
      sub_mod-Cong K (add_mod K y c) h
      ▸ add_mod-Cong K y c
      ▸ add-Cong
          (add_mod-Cong K x (mul_mod K e a)
            ▸ add-Cong
                (add_mod-Cong K start (mul_mod K d b)
                  ▸ add-Cong (cong_refl modulus start) (mul_mod-Cong K d b))
                (mul_mod-Cong K e a))
          (cong_refl modulus c)

  -- The masked value and the mask.
  unmask :
      (x0 x1 a0 a1 : ℕ)
      → Cong modulus (add_mod K (sub_mod K x0 a0) (sub_mod K x1 a1) + (a0 + a1)) (x0 + x1)
  unmask x0 x1 a0 a1 =
      add-Cong (add_mod-Cong K (sub_mod K x0 a0) (sub_mod K x1 a1)) (cong_refl modulus (a0 + a1))
      ▸ cong_of_eq modulus (omega arith)
      ▸ add-Cong (sub_mod-Cong K x0 a0) (sub_mod-Cong K x1 a1)

  -- With shares of a multiplication triple, and `D` and `E` opened, the two servers' `mulCheck` are
  -- shares of the product of the two masked values, less `evalH`.
  pub mul_check-Cong :
      (f0 f1 g0 g1 h0 h1 : ℕ) (t0 t1 : BeaverTripleShare)
      → AreTripleShares K (t0, t1)
      → (let c =
            cor K
              (record { share_d = sub_mod K f0 t0.share_a; share_e = sub_mod K g0 t0.share_b })
              (record { share_d = sub_mod K f1 t1.share_a; share_e = sub_mod K g1 t1.share_b }) in
          Cong modulus
            (mul_check K 0 c t0 h0 + mul_check K 1 c t1 h1 + (h0 + h1))
            ((f0 + f1) * (g0 + g1)))
  unfolding mul_check cor
  mul_check-Cong f0 f1 g0 g1 h0 h1 t0 t1 triple =
      let d = add_mod K (sub_mod K f0 t0.share_a) (sub_mod K f1 t1.share_a) in
      let e = add_mod K (sub_mod K g0 t0.share_b) (sub_mod K g1 t1.share_b) in
      let a = t0.share_a + t1.share_a in
      let b = t0.share_b + t1.share_b in
      cong_of_eq modulus (omega arith)
      ▸ add-Cong (mul_check-steps d e (mul_mod K d e) t0.share_a t0.share_b t0.share_c h0)
          (mul_check-steps d e 0 t1.share_a t1.share_b t1.share_c h1)
      ▸ cong_of_eq modulus (collect d e (mul_mod K d e) t0 t1)
      ▸ add-Cong (add-Cong (mul_mod-Cong K d e) (cong_refl modulus (d * b + e * a)))
          (cong_sym triple)
      ▸ cong_of_eq modulus (omega (arith, product a b d e))
      ▸ mul-Cong (unmask f0 f1 t0.share_a t1.share_a) (unmask g0 g1 t0.share_b t1.share_b)
    where
      collect :
          (d e s : ℕ) (t0 t1 : BeaverTripleShare)
          → s
              + d * t0.share_b
              + e * t0.share_a
              + t0.share_c
              + (0 + d * t1.share_b + e * t1.share_a + t1.share_c)
            ≡ s
              + (d * (t0.share_b + t1.share_b) + e * (t0.share_a + t1.share_a))
              + (t0.share_c + t1.share_c)
      collect d e s t0 t1 = omega arith

  -- The sum of the values, each with a random weight.
  abbrev pub weighted_sum : List ℕ → (i : ℕ) (draws : ℕ → ℕ) → ℕ
  weighted_sum [] i draws = 0
  weighted_sum (a ∷ arr) i draws = draws i * a + weighted_sum arr (suc i) draws

  pub rand_sum_loop-Cong :
      (arr : List ℕ) (i : ℕ) (draws : ℕ → ℕ) (out : ℕ)
      → Cong modulus (rand_sum_loop K arr i draws out) (out + weighted_sum arr i draws)
  unfolding rand_sum_loop
  rand_sum_loop-Cong [] i draws out = cong_of_eq modulus (omega arith)
  rand_sum_loop-Cong (a ∷ arr) i draws out =
      rand_sum_loop-Cong arr (suc i) draws _
      ▸ cong_of_eq modulus (omega (arith, K.fmpz_add_lem out (mul_mod K (draws i) a)))
      ▸ add-Cong (cong_refl modulus (out + weighted_sum arr (suc i) draws))
          (mul_mod-Cong K (draws i) a)
      ▸ cong_of_eq modulus (omega arith)
