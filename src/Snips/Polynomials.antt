-- ===== src/Snips/Polynomials.antt =====
-- The evaluation of polynomials over shares.
use prio_plus.Base.{
  ℕ, zero, suc, ◌+◌, ◌*◌, List, [], ◌∷◌, Option, none, some, arith, update, get_or, Cong, ◌▸◌,
  cong_of_eq, cong_sym, cong_refl, add-Cong, mul-Cong,
}
use prio_plus.Field.{Field, mul_mod, add_mod-Cong, mul_mod-Cong}
use prio_plus.Share.{ClientPacket}
use prio_plus.Circuit.{Circuit, Gate, input, Wires}
use prio_plus.Circuit.Sharing.{AreArrayShares, update-AreArrayShares}
use prio_plus.Snips.{
  PrecompX, CheckerPreComp, Points, Evals, points_loop, h_points_loop, eval_points, precomp_x_eval,
  eval_poly, parent_l, parent_r, constant_points,
}

module _ (K : Field) where
  open K use {modulus}

  eval_points-Cong :
      (cs : List ℕ) (i : ℕ) (y0 y1 y : ℕ → ℕ) (o0 o1 o : ℕ)
      → AreArrayShares K y0 y1 y
      → Cong modulus (o0 + o1) o
      → Cong modulus (eval_points K cs i y0 o0 + eval_points K cs i y1 o1) (eval_points K cs i y o)
  unfolding eval_points
  eval_points-Cong [] i y0 y1 y o0 o1 o hy ho = ho
  eval_points-Cong (c ∷ cs) i y0 y1 y o0 o1 o hy ho = eval_points-Cong cs (suc i) y0 y1 y _ _ _ hy (
      add-Cong
        (add_mod-Cong K o0 (mul_mod K (y0 i) c)
          ▸ add-Cong (cong_refl modulus o0) (mul_mod-Cong K (y0 i) c))
        (add_mod-Cong K o1 (mul_mod K (y1 i) c)
          ▸ add-Cong (cong_refl modulus o1) (mul_mod-Cong K (y1 i) c))
      ▸ cong_of_eq modulus (omega arith)
      ▸ add-Cong ho (mul-Cong (hy i) (cong_refl modulus c))
      ▸ cong_sym (
          add_mod-Cong K o (mul_mod K (y i) c)
          ▸ add-Cong (cong_refl modulus o) (mul_mod-Cong K (y i) c)))

  -- The evaluation at the point `x` is linear: the servers' evaluations of shares of the values add
  -- up to the evaluation of the values, modulo `Int_Modulus`.
  pub precomp_x_eval-Cong :
      (pre : PrecompX) (y0 y1 y : ℕ → ℕ)
      → AreArrayShares K y0 y1 y
      → Cong modulus (precomp_x_eval K pre y0 + precomp_x_eval K pre y1) (precomp_x_eval K pre y)
  unfolding precomp_x_eval
  precomp_x_eval-Cong pre y0 y1 y h = by_short pre.short_x
    where
      by_short :
          (s : Option ℕ)
          → Cong modulus
              (elim s [ none ↦ eval_points K pre.coeffs 0 y0 0 | some i ↦ y0 i ]
                + elim s [ none ↦ eval_points K pre.coeffs 0 y1 0 | some i ↦ y1 i ])
              (elim s [ none ↦ eval_points K pre.coeffs 0 y 0 | some i ↦ y i ])
      by_short none =
          eval_points-Cong pre.coeffs 0 y0 y1 y 0 0 0 h (cong_of_eq modulus (omega arith))
      by_short (some i) = h i

  -- Two packets that share a third: the constant terms and the points of `h`.
  pub record ArePacketShares (p0 p1 p : ClientPacket) : Type 0 where
    pub f0 : Cong modulus (p0.f0_s + p1.f0_s) p.f0_s
    pub g0 : Cong modulus (p0.g0_s + p1.g0_s) p.g0_s
    pub h0 : Cong modulus (p0.h0_s + p1.h0_s) p.h0_s
    pub points : AreArrayShares K p0.h_points p1.h_points p.h_points

  pub record ArePointShares (p0 p1 p : Points) : Type 0 where
    pub of_f : AreArrayShares K p0.points_f p1.points_f p.points_f
    pub of_g : AreArrayShares K p0.points_g p1.points_g p.points_g
    pub of_h : AreArrayShares K p0.points_h p1.points_h p.points_h

  points_loop-ArePointShares :
      (gs : List ℕ) (gates : List Gate) (w0 w1 w : Wires) (i : ℕ) (p0 p1 p : Points)
      → AreArrayShares K w0 w1 w
      → ArePointShares p0 p1 p
      → ArePointShares
          (points_loop gs gates w0 i p0)
          (points_loop gs gates w1 i p1)
          (points_loop gs gates w i p)
  unfolding points_loop
  points_loop-ArePointShares [] gates w0 w1 w i p0 p1 p hw h = h
  points_loop-ArePointShares (g ∷ gs) gates w0 w1 w i p0 p1 p hw h =
      points_loop-ArePointShares gs gates w0 w1 w (suc i) _ _ _ hw (record {
        of_f =
            update-AreArrayShares K p0.points_f p1.points_f p.points_f (i + 1) _ _ _ h.of_f
              (hw (parent_l (get_or gates g input)));
        of_g =
            update-AreArrayShares K p0.points_g p1.points_g p.points_g (i + 1) _ _ _ h.of_g
              (hw (parent_r (get_or gates g input)));
        of_h =
            update-AreArrayShares K p0.points_h p1.points_h p.points_h (2 * (i + 1)) _ _ _ h.of_h
              (hw g);
      })

  h_points_loop-AreArrayShares :
      (rounds j : ℕ) (x0 x1 x h0 h1 h : ℕ → ℕ)
      → AreArrayShares K x0 x1 x
      → AreArrayShares K h0 h1 h
      → AreArrayShares K
          (h_points_loop rounds j x0 h0)
          (h_points_loop rounds j x1 h1)
          (h_points_loop rounds j x h)
  unfolding h_points_loop
  h_points_loop-AreArrayShares zero j x0 x1 x h0 h1 h hx hh = hh
  h_points_loop-AreArrayShares (suc rounds) j x0 x1 x h0 h1 h hx hh =
      h_points_loop-AreArrayShares rounds (suc j) x0 x1 x _ _ _ hx
        (update-AreArrayShares K h0 h1 h (2 * j + 1) (x0 j) (x1 j) (x j) hh (hx j))

  constant-AreArrayShares :
      (a b c : ℕ)
      → Cong modulus (a + b) c
      → AreArrayShares K (update (λ i. 0) 0 a) (update (λ i. 0) 0 b) (update (λ i. 0) 0 c)
  constant-AreArrayShares a b c h =
      update-AreArrayShares K (λ i. 0) (λ i. 0) (λ i. 0) 0 a b c
        (λ j. cong_of_eq modulus (omega arith)) h

  times_x :
      (a b c x : ℕ)
      → Cong modulus (a + b) c
      → Cong modulus (mul_mod K a x + mul_mod K b x) (mul_mod K c x)
  times_x a b c x h =
      add-Cong (mul_mod-Cong K a x) (mul_mod-Cong K b x)
      ▸ cong_of_eq modulus (omega arith)
      ▸ mul-Cong h (cong_refl modulus x)
      ▸ cong_sym (mul_mod-Cong K c x)

  pub record AreEvalShares (e0 e1 e : Evals) : Type 0 where
    pub of_f : Cong modulus (e0.eval_f + e1.eval_f) e.eval_f
    pub of_g : Cong modulus (e0.eval_g + e1.eval_g) e.eval_g
    pub of_h : Cong modulus (e0.eval_h + e1.eval_h) e.eval_h

  -- The servers' `evalF`, `evalG` and `evalH`, from shares of a packet and of the wires, are shares
  -- of what the packet and the wires themselves give.
  pub eval_poly-AreEvalShares :
      (ckt : Circuit) (n_roots : ℕ) (pre : CheckerPreComp) (p0 p1 p : ClientPacket)
      (w0 w1 w : Wires)
      → ArePacketShares p0 p1 p
      → AreArrayShares K w0 w1 w
      → AreEvalShares
          (eval_poly K ckt n_roots pre p0 w0)
          (eval_poly K ckt n_roots pre p1 w1)
          (eval_poly K ckt n_roots pre p w)
  unfolding eval_poly
  eval_poly-AreEvalShares ckt n_roots pre p0 p1 p w0 w1 w hp hw =
      let s =
        points_loop-ArePointShares ckt.mul_gates ckt.gates w0 w1 w 0 (constant_points p0)
          (constant_points p1) (constant_points p) hw
          (record {
            of_f = constant-AreArrayShares p0.f0_s p1.f0_s p.f0_s hp.f0;
            of_g = constant-AreArrayShares p0.g0_s p1.g0_s p.g0_s hp.g0;
            of_h = constant-AreArrayShares p0.h0_s p1.h0_s p.h0_s hp.h0;
          }) in
      record {
        of_f = precomp_x_eval-Cong pre.x_n _ _ _ s.of_f;
        of_g = times_x _ _ _ pre.x (precomp_x_eval-Cong pre.x_n _ _ _ s.of_g);
        of_h = times_x _ _ _ pre.x (
            precomp_x_eval-Cong pre.x_2n _ _ _ (
              h_points_loop-AreArrayShares n_roots 0 p0.h_points p1.h_points p.h_points _ _ _
                hp.points s.of_h));
      }
