-- ===== src/Examples/Proofs.antt =====
-- Runs of the circuits and of the validation: a client with the value 3 and its square 9.
use prio_plus.Base.{ℕ, suc, zero, ◌+◌, ◌*◌, ◌≡◌, ◌↔◌, refl, true, [], ◌∷◌, map, none, Cong}
use prio_plus.Field.Native.{small_field}
use prio_plus.Field.{sub_mod}
use prio_plus.Share.{ClientPacket, cor}
use prio_plus.Share.Split.{AreTripleShares}
use prio_plus.Circuit.{Circuit, check_var, eval, get_mul_shares, import_wires}
use prio_plus.Circuit.Wires.{IsListed}
use prio_plus.Circuit.Sharing.{AreArrayShares, import_wires-eval}
use prio_plus.Circuit.Checks.{eval-check_var}
use prio_plus.Snips.{CheckerPreComp, eval_poly, mul_check, validate_snip}
use prio_plus.Snips.Polynomials.{ArePacketShares, AreEvalShares}
use prio_plus.Snips.Places.{evals_of, eval_poly_lem}
use prio_plus.Snips.Triple.{mul_check-Cong, weighted_sum}
use prio_plus.Snips.Validation.{validate_snip_iff}
use prio_plus.Examples.{draws}

-- An array with two values.
abbrev pub pair : (a b : ℕ) → ℕ → ℕ
pair a b zero = a
pair a b (suc zero) = b
pair a b (suc (suc j)) = 0

pair-AreArrayShares :
    (a0 b0 a1 b1 a b : ℕ)
    → Cong 13 (a0 + a1) a
    → Cong 13 (b0 + b1) b
    → AreArrayShares small_field (pair a0 b0) (pair a1 b1) (pair a b)
pair-AreArrayShares a0 b0 a1 b1 a b h k zero = h
pair-AreArrayShares a0 b0 a1 b1 a b h k (suc zero) = k
pair-AreArrayShares a0 b0 a1 b1 a b h k (suc (suc j)) = record { same = refl }

abbrev pub var_circuit : Circuit
var_circuit = check_var small_field

abbrev pub value : ℕ → ℕ
value = pair 3 9

value-shares : AreArrayShares small_field (pair 7 2) (pair 9 7) value
value-shares = pair-AreArrayShares 7 2 9 7 3 9 record { same = refl } record { same = refl }

eval-check_var_example :
    ((eval small_field (check_var small_field) (pair 3 9)).0 ≡ true) ↔ Cong 13 (3 * 3) 9
eval-check_var_example = eval-check_var small_field (pair 3 9)

-- The shares of the products that the client's packets carry.
abbrev product_shares : (ℕ → ℕ) × (ℕ → ℕ)
product_shares =
    get_mul_shares small_field var_circuit draws (eval small_field var_circuit value).1
      (λ i. 0, λ i. 0)

abbrev packet : (mul_shares : ℕ → ℕ) (f0 g0 h0 h1 h2 a b c : ℕ) → ClientPacket
packet mul_shares f0 g0 h0 h1 h2 a b c = record {
  n_mul = 1;
  n = 2;
  mul_shares = mul_shares;
  f0_s = f0;
  g0_s = g0;
  h0_s = h0;
  h_points = pair h1 h2;
  triple_share = record { share_a = a; share_b = b; share_c = c };
}

abbrev pub packet0 : ClientPacket
packet0 = packet product_shares.0 2 9 1 6 0 1 4 6

abbrev pub packet1 : ClientPacket
packet1 = packet product_shares.1 3 8 6 9 12 2 1 9

-- What the two packets share: `f` is `4 + x`, `g` is `10 + 7 x`, and `h` is their product.
abbrev whole_packet : ClientPacket
whole_packet = packet (λ i. 0) 5 4 7 2 12 3 5 2

packets-share : ArePacketShares small_field packet0 packet1 whole_packet
packets-share = record {
  f0 = record { same = refl };
  g0 = record { same = refl };
  h0 = record { same = refl };
  points = pair-AreArrayShares 6 0 9 12 2 12 record { same = refl } record { same = refl };
}

triples-share : AreTripleShares small_field (packet0.triple_share, packet1.triple_share)
triples-share = record { same = refl }

-- Lagrange's coefficients at 2, for the roots 1, 12 and for the roots 1, 5, 12, 8.
abbrev pub at_two : CheckerPreComp
at_two = record {
  x = 2;
  x_n = record { short_x = none; coeffs = 8 ∷ 6 ∷ [] };
  x_2n = record { short_x = none; coeffs = 7 ∷ 10 ∷ 2 ∷ 8 ∷ [] };
}

var_circuit-IsListed : IsListed var_circuit
unfolding check_var
var_circuit-IsListed = refl

wires-shared :
    AreArrayShares small_field
      (import_wires small_field var_circuit packet0 0 (pair 7 2))
      (import_wires small_field var_circuit packet1 1 (pair 9 7))
      (eval small_field var_circuit value).1
wires-shared =
    import_wires-eval small_field var_circuit draws (pair 7 2) (pair 9 7) value (λ i. 0) (λ i. 0)
      packet0 packet1 var_circuit-IsListed value-shares (refl, refl)

import_wires_example :
    AreArrayShares small_field
      (import_wires small_field var_circuit packet0 0 (pair 7 2))
      (import_wires small_field var_circuit packet1 1 (pair 9 7))
      (eval small_field var_circuit value).1
import_wires_example =
    import_wires-eval small_field var_circuit draws (pair 7 2) (pair 9 7) value (λ i. 0) (λ i. 0)
      packet0 packet1 var_circuit-IsListed value-shares (refl, refl)

eval_poly_example :
    AreEvalShares small_field
      (eval_poly small_field var_circuit 2 at_two packet0
        (import_wires small_field var_circuit packet0 0 (pair 7 2)))
      (eval_poly small_field var_circuit 2 at_two packet1
        (import_wires small_field var_circuit packet1 1 (pair 9 7)))
      (evals_of small_field var_circuit 2 at_two whole_packet
        (eval small_field var_circuit value).1)
eval_poly_example =
    eval_poly_lem small_field var_circuit 2 at_two packet0 packet1 whole_packet
      (import_wires small_field var_circuit packet0 0 (pair 7 2))
      (import_wires small_field var_circuit packet1 1 (pair 9 7))
      (eval small_field var_circuit value).1 packets-share wires-shared

mul_check_example :
    (let c =
        cor small_field
          (record { share_d = sub_mod small_field 4 1; share_e = sub_mod small_field 6 4 })
          (record { share_d = sub_mod small_field 2 2; share_e = sub_mod small_field 5 1 }) in
      Cong 13
        (mul_check small_field 0 c packet0.triple_share 3
          + mul_check small_field 1 c packet1.triple_share 8
          + (3 + 8))
        ((4 + 2) * (6 + 5)))
mul_check_example =
    mul_check-Cong small_field 4 2 6 5 3 8 packet0.triple_share packet1.triple_share triples-share

validate_snip_iff_example :
    (validate_snip small_field var_circuit 2 at_two packet0 packet1 (pair 7 2) (pair 9 7) draws
      ≡ true)
    ↔ (let e =
          eval_poly small_field var_circuit 2 at_two whole_packet
            (eval small_field var_circuit value).1 in
        Cong 13
          (draws 0 * (e.eval_f * e.eval_g)
            + weighted_sum small_field
                (map (eval small_field var_circuit value).1 var_circuit.result_zero)
                1
                draws)
          (draws 0 * e.eval_h))
validate_snip_iff_example =
    validate_snip_iff small_field var_circuit 2 at_two packet0 packet1 whole_packet (pair 7 2)
      (pair 9 7) (eval small_field var_circuit value).1 draws packets-share triples-share
      wires-shared
