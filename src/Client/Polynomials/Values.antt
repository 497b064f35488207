-- ===== src/Client/Polynomials/Values.antt =====
-- What the packets of `share_polynomials` add up to.
use prio_plus.Base.{
  ◌∷◌, ℕ, zero, suc, ◌+◌, ◌*◌, ◌^◌, ◌<◌, ◌≡◌, refl, ap, ◌∙◌, some, get_or, update, update_self,
  update_ne, arith, Cong, ◌▸◌, cong_of_eq, mul-Cong, Option, ◌≤◌, inl, inr, lt_or_le,
}
use mathlib.Core.Path.{ap₂}
use prio_plus.Correlated.{◌>>=◌}
use native.Mathlib.Nat.{pow-suc}
use prio_plus.Field.{Field, mul_mod, mul_mod-Cong}
use prio_plus.Share.{ClientPacket, next_power_of_two, split_share}
use prio_plus.Share.Split.{
  split_share-AreShares, AreTripleShares, beaver_triple_shares-AreTripleShares,
}
use prio_plus.Circuit.{Circuit, Wires, num_mul_gates, get_mul_shares}
use prio_plus.Snips.{parent_l, parent_r}
use prio_plus.Snips.Places.{parent_values}
use prio_plus.Transform.Roots.{PowLib, RootTables}
use prio_plus.Client.Polynomials.{
  PacketDraws, gate_points, share_h_loop, tables_for, eval_at_roots, packets_of, share_polynomials,
}
use prio_plus.Client.Polynomials.Extended.{
  bind_some, gate_points-list, extended, AreTables, eval_at_roots-extended,
}

module _ (K : Field) where
  open K use {modulus}

  share_h_keeps :
      (n i : ℕ) (ef eg draws h0 h1 : ℕ → ℕ) (j : ℕ)
      → j < i
      → (let s = share_h_loop K n i ef eg draws (h0, h1) in (s.0 j ≡ h0 j) × (s.1 j ≡ h1 j))
  unfolding share_h_loop
  share_h_keeps zero i ef eg draws h0 h1 j lt = (refl, refl)
  share_h_keeps (suc n) i ef eg draws h0 h1 j lt =
      let t = split_share K (mul_mod K (ef (2 * i + 1)) (eg (2 * i + 1))) (draws i) in
      let ih =
        share_h_keeps n (suc i) ef eg draws (update h0 i t.0) (update h1 i t.1) j
          (omega (arith, lt)) in
      (
        ih.0 ∙ update_ne h0 i t.0 j (omega (arith, lt)),
        ih.1 ∙ update_ne h1 i t.1 j (omega (arith, lt)),
      )

  share_h-products :
      (n i j : ℕ) (ef eg draws h0 h1 : ℕ → ℕ)
      → i ≤ j
      → j < n + i
      → (let s = share_h_loop K n i ef eg draws (h0, h1) in
          Cong modulus (s.0 j + s.1 j) (ef (2 * j + 1) * eg (2 * j + 1)))
  unfolding share_h_loop
  share_h-products zero i j ef eg draws h0 h1 le lt = absurd (omega (arith, le, lt))
  share_h-products (suc n) i j ef eg draws h0 h1 le lt =
      let val = mul_mod K (ef (2 * i + 1)) (eg (2 * i + 1)) in
      let t = split_share K val (draws i) in
      elim (lt_or_le i j) [
        | inl ne ↦
            share_h-products n (suc i) j ef eg draws (update h0 i t.0) (update h1 i t.1)
              (omega (arith, le, ne)) (omega (arith, lt))
        | inr ge ↦
            let e : i ≡ j = omega (arith, le, ge) in
            let kept =
              share_h_keeps n (suc i) ef eg draws (update h0 i t.0) (update h1 i t.1) i
                (omega arith) in
            rw (← e) (
              cong_of_eq modulus
                (ap₂ ◌+◌ (kept.0 ∙ update_self h0 i t.0) (kept.1 ∙ update_self h1 i t.1))
              ▸ split_share-AreShares K val (draws i)
              ▸ mul_mod-Cong K (ef (2 * i + 1)) (eg (2 * i + 1)))
      ]

  -- The points of `f` and `g`: a random one, then the wires of the left and of the right parents of the
  -- multiplication gates.
  abbrev pub left_points : Circuit → Wires → PacketDraws → ℕ → ℕ
  left_points c w d j = get_or (d.points_f0 ∷ parent_values parent_l c.mul_gates c.gates w) j 0

  abbrev pub right_points : Circuit → Wires → PacketDraws → ℕ → ℕ
  right_points c w d j = get_or (d.points_g0 ∷ parent_values parent_r c.mul_gates c.gates w) j 0

  abbrev loop_left : Circuit → Wires → PacketDraws → ℕ → ℕ
  loop_left c w d = gate_points parent_l c.mul_gates c.gates w 0 (update (λ j. 0) 0 d.points_f0)

  abbrev loop_right : Circuit → Wires → PacketDraws → ℕ → ℕ
  loop_right c w d = gate_points parent_r c.mul_gates c.gates w 0 (update (λ j. 0) 0 d.points_g0)

  -- What a pair of packets for the servers is meant to be.
  pub record ArePolynomialShares (L : PowLib) (k r s : ℕ) (c : Circuit) (w : Wires)
      (d : PacketDraws) (old new : ClientPacket × ClientPacket) : Type 0 where
    pub constant_f : Cong modulus (new.0.f0_s + new.1.f0_s) d.points_f0
    pub constant_g : Cong modulus (new.0.g0_s + new.1.g0_s) d.points_g0
    pub constant_h : Cong modulus (new.0.h0_s + new.1.h0_s) (d.points_f0 * d.points_g0)
    pub products :
        (j : ℕ)
        → j < 2 ^ k
        → Cong modulus (new.0.h_points j + new.1.h_points j) (
            extended K L k r s (left_points c w d) (2 * j + 1)
            * extended K L k r s (right_points c w d) (2 * j + 1))
    pub triple : AreTripleShares K (new.0.triple_share, new.1.triple_share)
    pub gates :
        (new.0.mul_shares, new.1.mul_shares)
        ≡ get_mul_shares K c d.mul_shares w (old.0.mul_shares, old.1.mul_shares)

  loops-left :
      (c : Circuit) (w : Wires) (d : PacketDraws) (j : ℕ) → loop_left c w d j ≡ left_points c w d j
  loops-left c w d j = gate_points-list parent_l c.mul_gates c.gates w d.points_f0 j

  loops-right :
      (c : Circuit) (w : Wires) (d : PacketDraws) (j : ℕ)
      → loop_right c w d j ≡ right_points c w d j
  loops-right c w d j = gate_points-list parent_r c.mul_gates c.gates w d.points_g0 j

  packets_of-ArePolynomialShares :
      (L : PowLib) (k r s : ℕ) (c : Circuit) (w : Wires) (d : PacketDraws) (ef eg : ℕ → ℕ)
      (p : ClientPacket × ClientPacket)
      → ((i : ℕ) → i < 2 ^ suc k → Cong modulus (ef i) (extended K L k r s (left_points c w d) i))
      → ((i : ℕ) → i < 2 ^ suc k → Cong modulus (eg i) (extended K L k r s (right_points c w d) i))
      → ArePolynomialShares L k r s c w d p (packets_of K c w d (2 ^ k) ef eg p)
  unfolding packets_of
  packets_of-ArePolynomialShares L k r s c w d ef eg (p0, p1) values_f values_g = record {
    constant_f = split_share-AreShares K d.points_f0 d.f0_share;
    constant_g = split_share-AreShares K d.points_g0 d.g0_share;
    constant_h =
        split_share-AreShares K (mul_mod K d.points_f0 d.points_g0) d.h0_share
        ▸ mul_mod-Cong K d.points_f0 d.points_g0;
    products = λ j lt.
        let below : 2 * j + 1 < 2 ^ suc k = omega (arith, lt, pow-suc 2 k) in
        share_h-products (2 ^ k) 0 j ef eg d.h_shares p0.h_points p1.h_points (omega arith)
          (omega (arith, lt))
        ▸ mul-Cong (values_f (2 * j + 1) below) (values_g (2 * j + 1) below);
    triple =
        beaver_triple_shares-AreTripleShares K d.triple_a d.triple_b d.share_a d.share_b d.share_c;
    gates = refl;
  }

  share_polynomials_runs :
      (L : PowLib) (gen two_order n : ℕ) (old : RootTables) (c : Circuit) (w : Wires)
      (d : PacketDraws) (p : ClientPacket × ClientPacket) (ef eg : ℕ → ℕ)
      → next_power_of_two (num_mul_gates c) ≡ some n
      → eval_at_roots K L n (tables_for K L gen two_order n old) (loop_left c w d) ≡ some ef
      → eval_at_roots K L n (tables_for K L gen two_order n old) (loop_right c w d) ≡ some eg
      → share_polynomials K L gen two_order old c w d p ≡ some (packets_of K c w d n ef eg p)
  unfolding share_polynomials
  share_polynomials_runs L gen two_order n old c w d p ef eg size run_f run_g =
      let right : ℕ → Option (ℕ → ℕ) =
        λ n. eval_at_roots K L n (tables_for K L gen two_order n old) (loop_right c w d) in
      let left : ℕ → Option (ℕ → ℕ) =
        λ n. eval_at_roots K L n (tables_for K L gen two_order n old) (loop_left c w d) in
      bind_some (next_power_of_two (num_mul_gates c)) n
        (λ n. left n >>= λ ef. right n >>= λ eg. some (packets_of K c w d n ef eg p)) size
      ∙ bind_some (left n) ef (λ ef. right n >>= λ eg. some (packets_of K c w d n ef eg p)) run_f
      ∙ bind_some (right n) eg (λ eg. some (packets_of K c w d n ef eg p)) run_g

  -- For a circuit whose multiplication gates need 2 ^ k points, with `k` below 30, and tables that hold
  -- the powers of a root of unity for that many points and for twice as many: `share_polynomials`
  -- ends, and modulo `Int_Modulus` its two packets add up to the random `f0` and `g0`, to their product
  -- `h0`, and to points of `h` that are at each odd index the product of two transforms: forth, at
  -- twice as many points, of what the transform back gives for `f0` and the wires of the left parents
  -- of the multiplication gates, and for `g0` and those of the right parents. The packets carry shares
  -- of a multiplication triple, and those that `GetMulShares` makes.
  pub share_polynomials-ArePolynomialShares :
      (L : PowLib) (gen two_order k r s : ℕ) (old : RootTables) (c : Circuit) (w : Wires)
      (d : PacketDraws) (p : ClientPacket × ClientPacket)
      → k < 30
      → next_power_of_two (num_mul_gates c) ≡ some (2 ^ k)
      → AreTables K k r s (tables_for K L gen two_order (2 ^ k) old)
      → (q : ClientPacket × ClientPacket) × (share_polynomials K L gen two_order old c w d p
          ≡ some q)
        × ArePolynomialShares L k r s c w d p q
  share_polynomials-ArePolynomialShares L gen two_order k r s old c w d p bits size tables =
      let t = tables_for K L gen two_order (2 ^ k) old in
      let (ef, run_f, values_f) =
        eval_at_roots-extended K L k r s t (loop_left c w d) (omega (arith, bits)) tables in
      let (eg, run_g, values_g) =
        eval_at_roots-extended K L k r s t (loop_right c w d) (omega (arith, bits)) tables in
      (
        packets_of K c w d (2 ^ k) ef eg p,
        share_polynomials_runs L gen two_order (2 ^ k) old c w d p ef eg size run_f run_g,
        packets_of-ArePolynomialShares L k r s c w d ef eg p
            (λ i lt.
              values_f i lt
              ▸ cong_of_eq modulus (
                  ap (λ (points : ℕ → ℕ). extended K L k r s points i) λ t j. loops-left c w d j t))
            (λ i lt.
              values_g i lt
              ▸ cong_of_eq modulus (
                  ap (λ (points : ℕ → ℕ). extended K L k r s points i)
                    λ t j. loops-right c w d j t)),
      )
