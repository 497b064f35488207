-- ===== src/Snips/Places.antt =====
-- `evalPoly`: the arrays of points that it fills, as lists of the values of the wires.
use prio_plus.Base.{
  ℕ, zero, suc, ◌+◌, ◌*◌, ◌≡◌, refl, ap, ◌∙◌, List, [], ◌∷◌, map, get_or, table, ◌▸◌, cong_of_eq,
}
use prio_plus.Field.{Field, mul_mod}
use prio_plus.Share.{ClientPacket}
use prio_plus.Circuit.{Circuit, Gate, input, Wires}
use prio_plus.Circuit.Sharing.{AreArrayShares}
use prio_plus.Snips.{
  Points, PrecompX, CheckerPreComp, Evals, parent_l, parent_r, points_loop, h_points_loop,
  constant_points, precomp_x_eval, eval_poly,
}
use prio_plus.Snips.Polynomials.{ArePacketShares, AreEvalShares, eval_poly-AreEvalShares}
use prio_plus.Snips.Fill.{fill, fill-next, h_values, fill-h}

-- The values of the wires that lead into the gates at some places.
abbrev pub parent_values : (parent : Gate → ℕ) → List ℕ → List Gate → Wires → List ℕ
parent_values parent gs gates w = map (λ g. w (parent (get_or gates g input))) gs

points_loop-fill :
    (gs : List ℕ) (gates : List Gate) (w : Wires) (i : ℕ) (p : Points)
    → (let q = points_loop gs gates w i p in
        (q.points_f ≡ fill (λ i. i + 1) (parent_values parent_l gs gates w) i p.points_f)
        × (q.points_g ≡ fill (λ i. i + 1) (parent_values parent_r gs gates w) i p.points_g)
        × (q.points_h ≡ fill (λ i. 2 * (i + 1)) (map w gs) i p.points_h))
unfolding points_loop fill
points_loop-fill [] gates w i p = (refl, refl, refl)
points_loop-fill (g ∷ gs) gates w i p = points_loop-fill gs gates w (suc i) _

h_points_loop-fill :
    (n j : ℕ) (h_points h : ℕ → ℕ)
    → h_points_loop n j h_points h ≡ fill (λ i. 2 * i + 1) (table n j h_points) j h
unfolding h_points_loop fill
h_points_loop-fill zero j h_points h = refl
h_points_loop-fill (suc n) j h_points h = h_points_loop-fill n (suc j) h_points _

module _ (K : Field) where
  open K use {modulus}

  -- What `evalPoly` is meant to evaluate: the polynomials through the constants and the wires of the
  -- multiplication gates, `f` the left and `g` the right parents, `h` the gates themselves and the
  -- points of the packet.
  abbrev pub evals_of : Circuit → (n_roots : ℕ) → CheckerPreComp → ClientPacket → Wires → Evals
  evals_of ckt n_roots pre p w =
      let gs = ckt.mul_gates in
      record {
        eval_f =
            precomp_x_eval K pre.x_n
              λ j. get_or (p.f0_s ∷ parent_values parent_l gs ckt.gates w) j 0;
        eval_g =
            mul_mod K
              (precomp_x_eval K pre.x_n
                λ j. get_or (p.g0_s ∷ parent_values parent_r gs ckt.gates w) j 0)
              pre.x;
        eval_h =
            mul_mod K (precomp_x_eval K pre.x_2n (h_values n_roots p.h0_s (map w gs) p.h_points))
              pre.x;
      }

  places_of_f :
      (gs : List ℕ) (gates : List Gate) (w : Wires) (p : ClientPacket) (j : ℕ)
      → (let q = points_loop gs gates w 0 (constant_points p) in
          (q.points_f j ≡ get_or (p.f0_s ∷ parent_values parent_l gs gates w) j 0)
          × (q.points_g j ≡ get_or (p.g0_s ∷ parent_values parent_r gs gates w) j 0))
  places_of_f gs gates w p j =
      let (f, g, _) = points_loop-fill gs gates w 0 (constant_points p) in
      (
        ap (λ (h : ℕ → ℕ). h j) f ∙ fill-next (parent_values parent_l gs gates w) p.f0_s j,
        ap (λ (h : ℕ → ℕ). h j) g ∙ fill-next (parent_values parent_r gs gates w) p.g0_s j,
      )

  places_of_h :
      (gs : List ℕ) (gates : List Gate) (w : Wires) (n : ℕ) (p : ClientPacket) (j : ℕ)
      → (let q = points_loop gs gates w 0 (constant_points p) in
          h_points_loop n 0 p.h_points q.points_h j ≡ h_values n p.h0_s (map w gs) p.h_points j)
  places_of_h gs gates w n p j =
      let (_, _, h) = points_loop-fill gs gates w 0 (constant_points p) in
      let q = points_loop gs gates w 0 (constant_points p) in
      ap (λ (t : ℕ → ℕ). t j) (h_points_loop-fill n 0 p.h_points q.points_h)
      ∙ ap (λ (t : ℕ → ℕ). fill (λ i. 2 * i + 1) (table n 0 p.h_points) 0 t j) h
      ∙ fill-h n p.h0_s (map w gs) p.h_points j

  -- A point's evaluation depends on the values of the points only.
  precomp_x_eval-points :
      (pre : PrecompX) (y z : ℕ → ℕ)
      → ((j : ℕ) → y j ≡ z j)
      → precomp_x_eval K pre y ≡ precomp_x_eval K pre z
  precomp_x_eval-points pre y z h = ap (precomp_x_eval K pre) (λ i j. h j i)

  eval_poly-evals_of :
      (ckt : Circuit) (n_roots : ℕ) (pre : CheckerPreComp) (p : ClientPacket) (w : Wires)
      → (let e = eval_poly K ckt n_roots pre p w in
          let v = evals_of ckt n_roots pre p w in
          (e.eval_f ≡ v.eval_f) × (e.eval_g ≡ v.eval_g) × (e.eval_h ≡ v.eval_h))
  unfolding eval_poly
  eval_poly-evals_of ckt n_roots pre p w =
      let gs = ckt.mul_gates in
      (
        precomp_x_eval-points pre.x_n _ _ (λ j. (places_of_f gs ckt.gates w p j).0),
        ap (λ (t : ℕ). mul_mod K t pre.x)
            (precomp_x_eval-points pre.x_n _ _ (λ j. (places_of_f gs ckt.gates w p j).1)),
        ap (λ (t : ℕ). mul_mod K t pre.x)
            (precomp_x_eval-points pre.x_2n _ _ (λ j. places_of_h gs ckt.gates w n_roots p j)),
      )

  -- The servers' `evalF`, `evalG` and `evalH`, from shares of a packet and of the wires, are shares of
  -- what the whole packet and wires give: the evaluations of the polynomials with the constant term of
  -- the packet at the first point and then, for `f`, `g` and `h`, the wires of the left parents, of the
  -- right parents and of the multiplication gates at the next points, for `h` at the even points with
  -- the packet's points of `h` at the odd ones.
  pub eval_poly_lem :
      (ckt : Circuit) (n_roots : ℕ) (pre : CheckerPreComp) (p0 p1 p : ClientPacket)
      (w0 w1 w : Wires)
      → ArePacketShares K p0 p1 p
      → AreArrayShares K w0 w1 w
      → AreEvalShares K
          (eval_poly K ckt n_roots pre p0 w0)
          (eval_poly K ckt n_roots pre p1 w1)
          (evals_of ckt n_roots pre p w)
  eval_poly_lem ckt n_roots pre p0 p1 p w0 w1 w hp hw =
      let s = eval_poly-AreEvalShares K ckt n_roots pre p0 p1 p w0 w1 w hp hw in
      let (f, g, h) = eval_poly-evals_of ckt n_roots pre p w in
      record {
        of_f = s.of_f ▸ cong_of_eq modulus f;
        of_g = s.of_g ▸ cong_of_eq modulus g;
        of_h = s.of_h ▸ cong_of_eq modulus h;
      }
