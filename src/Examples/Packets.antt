-- ===== src/Examples/Packets.antt =====
-- A run of `share_polynomials`, modulo 13: 12 is a square root of 1, and 5 a fourth root.
use prio_plus.Base.{ℕ, zero, suc, ◌+◌, ◌^◌, ◌<◌, ◌≡◌, refl, some, arith, get_or, Cong}
use prio_plus.Field.{mul_mod}
use prio_plus.Field.Native.{small_field}
use prio_plus.Share.{ClientPacket, next_power_of_two, next_power_loop}
use prio_plus.Circuit.{num_mul_gates, check_var, eval}
use prio_plus.Transform.Roots.{RootTables, init_roots, power_loop}
use prio_plus.Client.Polynomials.{PacketDraws, share_polynomials, tables_for}
use prio_plus.Client.Polynomials.Values.{ArePolynomialShares, share_polynomials-ArePolynomialShares}
use prio_plus.Examples.Proofs.{packet0, packet1, var_circuit, value}
use prio_plus.Examples.Transforms.{pow_lib, no_tables}

abbrev packet_draws : PacketDraws
packet_draws = record {
  points_f0 = 4;
  points_g0 = 10;
  h_shares = λ j. j + 3;
  f0_share = 2;
  g0_share = 9;
  h0_share = 1;
  mul_shares = λ j. 7;
  triple_a = 3;
  triple_b = 5;
  share_a = 1;
  share_b = 4;
  share_c = 6;
}

abbrev tables : RootTables
tables = tables_for small_field pow_lib 5 2 (2 ^ 1) no_tables

inverses : (j : ℕ) → j < 2 ^ 1 → Cong 13 (get_or tables.invroots j 0) (12 ^ j)
unfolding tables_for init_roots power_loop mul_mod
inverses zero lt = record { same = refl }
inverses (suc zero) lt = record { same = refl }
inverses (suc (suc j)) lt = absurd (omega (arith, lt))

doubled : (j : ℕ) → j < 2 ^ 2 → Cong 13 (get_or tables.roots2 j 0) (5 ^ j)
unfolding tables_for init_roots power_loop mul_mod
doubled zero lt = record { same = refl }
doubled (suc zero) lt = record { same = refl }
doubled (suc (suc zero)) lt = record { same = refl }
doubled (suc (suc (suc zero))) lt = record { same = refl }
doubled (suc (suc (suc (suc j)))) lt = absurd (omega (arith, lt))

one_gate : next_power_of_two (num_mul_gates var_circuit) ≡ some (2 ^ 1)
unfolding next_power_of_two next_power_loop num_mul_gates check_var
one_gate = refl

share_polynomials_example :
    (let w = (eval small_field var_circuit value).1 in
      (q : ClientPacket × ClientPacket) × (share_polynomials small_field pow_lib 5 2 no_tables
          var_circuit w packet_draws
          (packet0, packet1)
        ≡ some q)
      × ArePolynomialShares small_field pow_lib 1 12 5 var_circuit w packet_draws
          (packet0, packet1)
          q)
share_polynomials_example =
    share_polynomials-ArePolynomialShares small_field pow_lib 5 2 1 12 5 no_tables var_circuit
      (eval small_field var_circuit value).1 packet_draws (packet0, packet1) (omega arith) one_gate
      record {
        root = record { same = refl };
        root2 = record { same = refl };
        inverses = inverses;
        doubled = doubled;
      }
