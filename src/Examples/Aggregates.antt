-- ===== src/Examples/Aggregates.antt =====
-- Runs of the operations that convert integers before they sum them: three clients, of which server
-- 0 knows two.
use prio_plus.Base.{ℕ, ◌*◌, ◌≡◌, refl, List, [], ◌∷◌, some, if◌then◌else◌, ◌==◌, arith}
use prio_plus.Field.Native.{small_field}
use prio_plus.Share.{ClientPacket, next_power_of_two, next_power_loop}
use prio_plus.Circuit.{check_var, check_lin_reg, num_mul_gates}
use prio_plus.Server.{Shares, Answer, error_exit, out_of_bounds, collect_shares}
use prio_plus.Server.Aggregate.{VarShare, var_fields, accept_var, var_op}
use prio_plus.Server.Aggregate.Operations.{IsChecked, var_op-IsChecked}
use prio_plus.Server.LinReg.{LinRegShare, lin_reg_fields, lin_reg_bits, accept_lin_reg, linreg_op}
use prio_plus.Server.LinReg.Answers.{IsLaidOut, linreg_op-IsChecked}
use prio_plus.Server.IntSum.{int_sum, accept_int, int_sum-out_of_bounds}
use prio_plus.Examples.{emp, draws}
use prio_plus.Examples.Proofs.{packet0, packet1, at_two}

abbrev in_order : {V : Type 0} → Shares V → Shares V
in_order m = m

abbrev var_share : (val val_squared : ℕ) (packet : ClientPacket) → VarShare
var_share val val_squared packet = record { val = val; val_squared = val_squared; packet = packet }

abbrev var_inputs0 : Shares VarShare
var_inputs0 = (5, var_share 1 3 packet0) ∷ (7, var_share 0 2 packet0) ∷ []

abbrev var_inputs1 : Shares VarShare
var_inputs1 =
    (5, var_share 0 2 packet1) ∷ (7, var_share 1 3 packet1) ∷ (9, var_share 1 1 packet1) ∷ []

var_op_example :
    (mock : ClientPacket) × IsChecked small_field emp var_fields
      (λ s. s.packet)
      (record { val = 0; val_squared = 0; packet = mock })
      (check_var small_field)
      2
      (1 ∷ 1 * 2 ∷ [])
      at_two
      draws
      (λ i. draws)
      3
      (collect_shares (accept_var 1) var_inputs0 [])
      (in_order (collect_shares (accept_var 1) var_inputs1 []))
      (some (var_op small_field emp in_order 1 at_two draws (λ i. draws) 3 var_inputs0 var_inputs1))
unfolding collect_shares accept_var
var_op_example =
    var_op-IsChecked small_field emp in_order 1 at_two draws (λ i. draws) 3 var_inputs0 var_inputs1
      (omega arith)

abbrev lin_reg_share : (x y x2 xy : ℕ) (packet : ClientPacket) → LinRegShare
lin_reg_share x y x2 xy packet = record {
  x_vals = λ j. x;
  y = y;
  x2_vals = λ j. x2;
  xy_vals = λ j. xy;
  packet = packet;
}

abbrev lin_reg_inputs0 : Shares LinRegShare
lin_reg_inputs0 = (5, lin_reg_share 1 0 3 2 packet0) ∷ (7, lin_reg_share 0 1 2 1 packet0) ∷ []

abbrev lin_reg_inputs1 : Shares LinRegShare
lin_reg_inputs1 =
    (5, lin_reg_share 0 1 2 3 packet1)
    ∷ (7, lin_reg_share 1 0 3 0 packet1)
    ∷ (9, lin_reg_share 1 1 1 1 packet1)
    ∷ []

abbrev unset_share : LinRegShare
unset_share = lin_reg_share 8 8 8 8 packet0

lin_reg_roots : next_power_of_two (num_mul_gates (check_lin_reg small_field 2)) ≡ some 4
unfolding next_power_of_two next_power_loop num_mul_gates check_lin_reg
lin_reg_roots = refl

linreg_op_example :
    (mock : LinRegShare) × (sums : Answer (ℕ × List ℕ)) × IsChecked small_field emp
      (lin_reg_fields 1)
      (λ s. s.packet)
      mock
      (check_lin_reg small_field 2)
      4
      (lin_reg_bits 1 1)
      at_two
      draws
      (λ i. draws)
      3
      (collect_shares (accept_lin_reg 1 1) lin_reg_inputs0 [])
      (in_order (collect_shares (accept_lin_reg 1 1) lin_reg_inputs1 []))
      (some sums)
    × IsLaidOut
        (λ v. v)
        1
        0
        0
        sums
        (linreg_op small_field emp
          (λ v. v)
          in_order
          1
          1
          unset_share
          at_two
          draws
          (λ i. draws)
          3
          lin_reg_inputs0
          lin_reg_inputs1)
unfolding collect_shares accept_lin_reg
linreg_op_example =
    linreg_op-IsChecked small_field emp (λ v. v) in_order 1 1 4 0 0 unset_share at_two draws
      (λ i. draws) 3 lin_reg_inputs0 lin_reg_inputs1 (omega arith) lin_reg_roots (omega arith)
      (omega arith)

int_sum_example :
    int_sum small_field emp (λ v. v) in_order 63 0 draws 2 ((5, 11) ∷ []) ((5, 14) ∷ (7, 2) ∷ [])
    ≡ (if 63 == 63 then out_of_bounds else error_exit)
unfolding accept_int
int_sum_example =
    int_sum-out_of_bounds small_field emp (λ v. v) in_order 63 0 draws 2 5 14 ((5, 11) ∷ [])
      ((5, 14) ∷ (7, 2) ∷ []) (λ m. refl) refl
