-- ===== src/Snips/Validation.antt =====
-- `validate_snip`: which proofs the two servers accept.
use prio_plus.Base.{
  ℕ, suc, ◌+◌, ◌*◌, ◌%◌, ◌≡◌, ◌↔◌, ◌∙◌, sym, true, List, [], ◌∷◌, map, arith, ==_iff, Cong, ◌▸◌,
  cong_of_eq, cong_sym, cong_refl, add-Cong, mul-Cong, add-Cong_cancel,
}
use native.Mathlib.Nat.{mod-mod, zero-mod}
use prio_plus.Field.{Field, add_mod, add_mod_lem}
use prio_plus.Share.{ClientPacket, cor}
use prio_plus.Share.Split.{AreTripleShares}
use prio_plus.Circuit.{Circuit, Wires, import_wires}
use prio_plus.Circuit.Sharing.{AreArrayShares}
use prio_plus.Snips.{
  CheckerPreComp, checker, cor_share_fn, mul_check, rand_sum, out_share, add_to_zero, eval_poly,
  validate_snip,
}
use prio_plus.Snips.Polynomials.{ArePacketShares, eval_poly-AreEvalShares}
use prio_plus.Snips.Triple.{mul_check-Cong, weighted_sum, rand_sum_loop-Cong}

module _ (K : Field) where
  open K use {modulus, modulus_pos}

  weighted_sum-Cong :
      (ps : List ℕ) (w0 w1 w : Wires) (i : ℕ) (draws : ℕ → ℕ)
      → AreArrayShares K w0 w1 w
      → Cong modulus
          (weighted_sum K (map w0 ps) i draws + weighted_sum K (map w1 ps) i draws)
          (weighted_sum K (map w ps) i draws)
  weighted_sum-Cong [] w0 w1 w i draws h = cong_of_eq modulus (omega arith)
  weighted_sum-Cong (z ∷ ps) w0 w1 w i draws h =
      cong_of_eq modulus (omega arith)
      ▸ add-Cong (mul-Cong (cong_refl modulus (draws i)) (h z))
          (weighted_sum-Cong ps w0 w1 w (suc i) draws h)

  rand_sum-Cong :
      (arr : List ℕ) (draws : ℕ → ℕ)
      → Cong modulus (rand_sum K arr draws) (weighted_sum K arr 0 draws)
  unfolding rand_sum
  rand_sum-Cong arr draws =
      cong_of_eq modulus (K.fmpz_mod_lem _ modulus modulus_pos)
      ▸ record { same = mod-mod _ modulus }
      ▸ rand_sum_loop-Cong K arr 0 draws 0
      ▸ cong_of_eq modulus (omega arith)

  -- `AddToZero` accepts the shares of 0, modulo `Int_Modulus`.
  add_to_zero_iff : (x y : ℕ) → (add_to_zero K x y ≡ true) ↔ Cong modulus (x + y) 0
  unfolding add_to_zero
  add_to_zero_iff x y =
      let z : 0 % modulus ≡ 0 = zero-mod modulus in
      (
        λ h. record { same = sym (add_mod_lem K x y) ∙ (==_iff (add_mod K x y) 0).0 h ∙ sym z },
        λ h. (==_iff (add_mod K x y) 0).1 (add_mod_lem K x y ∙ h.same ∙ z),
      )

  -- The two servers' results for a client, from shares of its packet and of its wires.
  outs-Cong :
      (ckt : Circuit) (n_roots : ℕ) (pre : CheckerPreComp) (p0 p1 p : ClientPacket) (s0 s1 : ℕ → ℕ)
      (w : Wires) (draws : ℕ → ℕ)
      → ArePacketShares K p0 p1 p
      → AreTripleShares K (p0.triple_share, p1.triple_share)
      → AreArrayShares K (import_wires K ckt p0 0 s0) (import_wires K ckt p1 1 s1) w
      → (let c0 = checker K ckt n_roots 0 p0 pre s0 in
          let c1 = checker K ckt n_roots 1 p1 pre s1 in
          let c = cor K (cor_share_fn K c0) (cor_share_fn K c1) in
          let e = eval_poly K ckt n_roots pre p w in
          Cong modulus
            (out_share K c0 ckt.result_zero c draws
              + out_share K c1 ckt.result_zero c draws
              + draws 0 * e.eval_h)
            (draws 0 * (e.eval_f * e.eval_g) + weighted_sum K (map w ckt.result_zero) 1 draws))
  unfolding out_share checker cor_share_fn
  outs-Cong ckt n_roots pre p0 p1 p s0 s1 w draws hp triple hw =
      let w0 = import_wires K ckt p0 0 s0 in
      let w1 = import_wires K ckt p1 1 s1 in
      let e0 = eval_poly K ckt n_roots pre p0 w0 in
      let e1 = eval_poly K ckt n_roots pre p1 w1 in
      let e = eval_poly K ckt n_roots pre p w in
      let h = eval_poly-AreEvalShares K ckt n_roots pre p0 p1 p w0 w1 w hp hw in
      let m =
        mul_check-Cong K e0.eval_f e1.eval_f e0.eval_g e1.eval_g e0.eval_h e1.eval_h p0.triple_share
          p1.triple_share triple in
      let c =
        cor K (cor_share_fn K (checker K ckt n_roots 0 p0 pre s0))
          (cor_share_fn K (checker K ckt n_roots 1 p1 pre s1)) in
      let arr0 = mul_check K 0 c p0.triple_share e0.eval_h ∷ map w0 ckt.result_zero in
      let arr1 = mul_check K 1 c p1.triple_share e1.eval_h ∷ map w1 ckt.result_zero in
      add-Cong (add-Cong (rand_sum-Cong arr0 draws) (rand_sum-Cong arr1 draws))
        (mul-Cong (cong_refl modulus (draws 0)) (cong_sym h.of_h))
      ▸ cong_of_eq modulus (omega arith)
      ▸ add-Cong (mul-Cong (cong_refl modulus (draws 0)) (m ▸ mul-Cong h.of_f h.of_g))
          (weighted_sum-Cong ckt.result_zero w0 w1 w 1 draws hw)

  -- For shares of a packet, of a multiplication triple and of the wires `w`, the servers accept
  -- exactly when, modulo `Int_Modulus`, the first random draw times `f(x) * x * g(x)`, and the sum of
  -- the wires that must be 0, each times its draw, add up to the first draw times `x * h(x)`. Here
  -- `f`, `g` and `h` are evaluated from the whole packet and from `w`.
  pub validate_snip_iff :
      (ckt : Circuit) (n_roots : ℕ) (pre : CheckerPreComp) (p0 p1 p : ClientPacket) (s0 s1 : ℕ → ℕ)
      (w : Wires) (draws : ℕ → ℕ)
      → ArePacketShares K p0 p1 p
      → AreTripleShares K (p0.triple_share, p1.triple_share)
      → AreArrayShares K (import_wires K ckt p0 0 s0) (import_wires K ckt p1 1 s1) w
      → (validate_snip K ckt n_roots pre p0 p1 s0 s1 draws ≡ true) ↔ (
          let e = eval_poly K ckt n_roots pre p w in
          Cong modulus
            (draws 0 * (e.eval_f * e.eval_g) + weighted_sum K (map w ckt.result_zero) 1 draws)
            (draws 0 * e.eval_h))
  unfolding validate_snip
  validate_snip_iff ckt n_roots pre p0 p1 p s0 s1 w draws hp triple hw =
      let e = eval_poly K ckt n_roots pre p w in
      let o = outs-Cong ckt n_roots pre p0 p1 p s0 s1 w draws hp triple hw in
      let zero_iff = add_to_zero_iff _ _ in
      (
        λ h.
            cong_sym o
            ▸ add-Cong (zero_iff.0 h) (cong_refl modulus (draws 0 * e.eval_h))
            ▸ cong_of_eq modulus (omega arith),
        λ h. zero_iff.1 (
            add-Cong_cancel (draws 0 * e.eval_h) modulus_pos
              (o ▸ h ▸ cong_of_eq modulus (omega arith))),
      )
