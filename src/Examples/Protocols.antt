-- ===== src/Examples/Protocols.antt =====
-- Runs of the sharing, of the transfers and of the stored daBits and triples.
use prio_plus.Base.{
  inr, ◌^◌, ℕ, ◌+◌, ◌/◌, ◌≤◌, ◌≡◌, refl, Bool, true, false, List, [], ◌∷◌, some, length, u64, arith,
  Cong,
}
use prio_plus.Field.Native.{small_field}
use prio_plus.Share.{make_local_dabit, make_local_edabit, next_power_of_two}
use prio_plus.Share.PowerOfTwo.{IsNextPower, next_power_of_two_lem}
use prio_plus.Share.DaBits.{
  IsDaBit, IsEdaBit, drawn_bits, make_local_dabit-IsDaBit, make_local_edabit-IsEdaBit,
}
use prio_plus.Ot.{
  ot_transfer, bitsum_ot_sender, bitsum_ot_receiver, intsum_ot_sender, intsum_ot_receiver,
  choice_shares, gen_boolean_beaver_triples,
}
use prio_plus.Ot.BitSum.{valid_xor_sum, bitsum_ot-Cong}
use prio_plus.Ot.IntSum.Shares.{AllConverted, intsum_ot-AllConverted}
use prio_plus.Ot.BoolTriples.{AreBoolTriples, gen_boolean_beaver_triples-AreBoolTriples}
use prio_plus.Correlated.{
  Store, multiply_bool_shares, b2a_dabit_single, b2a_dabit_multi, maybe_update,
}
use prio_plus.Correlated.Queues.{StoresMatch}
use prio_plus.Correlated.Queues.DaBits.{maybe_update-StoresMatch}
use prio_plus.Correlated.Products.{AreProducts, multiply_bool_shares_lem}
use prio_plus.Correlated.Conversion.{AreSummed, b2a_dabit_single_lem}
use prio_plus.Correlated.MultiBit.{AreJoined, b2a_dabit_multi_lem}
use prio_plus.Examples.{
  emp, draws, draws-lt, supply0, supply1, supply-SuppliesMatch, store, store-StoresMatch,
}

abbrev bits0 : List (Bool × Bool)
bits0 = (true, true) ∷ (false, true) ∷ (true, false) ∷ []

abbrev bits1 : List Bool
bits1 = false ∷ true ∷ true ∷ []

bitsum_ot_example :
    Cong u64
      ((bitsum_ot_sender bits0 0 draws).result
        + bitsum_ot_receiver
            (ot_transfer emp
              (bitsum_ot_sender bits0 0 draws).b0
              (bitsum_ot_sender bits0 0 draws).b1
              bits1)
            0)
      (valid_xor_sum bits0 bits1)
bitsum_ot_example = bitsum_ot-Cong emp bits0 bits1 draws refl draws-lt

abbrev values0 : List (List ℕ × Bool)
values0 = (5 ∷ 2 ∷ [], true) ∷ (7 ∷ 1 ∷ [], false) ∷ []

abbrev values1 : List (List ℕ)
values1 = (3 ∷ 1 ∷ []) ∷ (6 ∷ 0 ∷ []) ∷ []

abbrev value_bits : List ℕ
value_bits = 3 ∷ 2 ∷ []

intsum_ot_example :
    AllConverted 13 value_bits values0 values1
      (intsum_ot_sender values0 value_bits 13 draws).result
      (intsum_ot_receiver
        (ot_transfer emp
          (intsum_ot_sender values0 value_bits 13 draws).b0
          (intsum_ot_sender values0 value_bits 13 draws).b1
          (choice_shares values1 value_bits))
        2
        value_bits
        13)
intsum_ot_example =
    intsum_ot-AllConverted 13 draws draws-lt emp value_bits values0 values1
      (
        inr (omega arith, omega arith, omega arith),
        (inr (omega arith, omega arith, omega arith), tt),
      )
      (refl, refl, (refl, refl, tt))

abbrev random0 : List (Bool × Bool × Bool)
random0 = (true, true, false) ∷ (false, true, true) ∷ []

abbrev random1 : List (Bool × Bool × Bool)
random1 = (false, true, true) ∷ (true, false, false) ∷ []

gen_boolean_beaver_triples_example :
    AreBoolTriples
      (gen_boolean_beaver_triples emp random0 random1).0
      (gen_boolean_beaver_triples emp random0 random1).1
gen_boolean_beaver_triples_example =
    gen_boolean_beaver_triples-AreBoolTriples emp random0 random1 refl

make_local_dabit_example : IsDaBit small_field 1 (make_local_dabit small_field 1 8)
make_local_dabit_example = make_local_dabit-IsDaBit small_field 1 8 refl (omega arith) (omega arith)

abbrev edabit_draws : List (ℕ × ℕ)
edabit_draws = (1, 8) ∷ (0, 2) ∷ (1, 5) ∷ []

make_local_edabit_example :
    IsEdaBit small_field (drawn_bits edabit_draws) 0 1 (make_local_edabit small_field edabit_draws)
make_local_edabit_example =
    make_local_edabit-IsEdaBit small_field edabit_draws refl
      (omega arith, omega arith, (omega arith, omega arith, (omega arith, omega arith, tt)))

next_power_of_two_example : (k : ℕ) × (next_power_of_two 5 ≡ some (2 ^ k)) × IsNextPower 5 k
next_power_of_two_example = next_power_of_two_lem 5 (omega arith)

maybe_update_example :
    StoresMatch small_field
      (maybe_update small_field supply0 (store 0))
      (maybe_update small_field supply1 (store 1))
    × (2 / 2 ≤ length (maybe_update small_field supply0 (store 0)).dabit_store)
maybe_update_example =
    maybe_update-StoresMatch small_field supply0 supply1 supply-SuppliesMatch (store 0) (store 1)
      store-StoresMatch

abbrev factors0 : List (Bool × Bool)
factors0 = (true, false) ∷ (true, true) ∷ (false, true) ∷ []

abbrev factors1 : List (Bool × Bool)
factors1 = (false, true) ∷ (true, false) ∷ (true, true) ∷ []

multiply_bool_shares_example :
    (z0 z1 : List Bool) × (t0 t1 : Store) × (multiply_bool_shares supply0 supply1 factors0 factors1
        (store 0)
        (store 1)
      ≡ some ((z0, z1), (t0, t1)))
    × AreProducts factors0 factors1 z0 z1
    × StoresMatch small_field t0 t1
multiply_bool_shares_example =
    multiply_bool_shares_lem small_field supply0 supply1 supply-SuppliesMatch factors0 factors1
      (store 0) (store 1) refl store-StoresMatch

b2a_dabit_single_example :
    (p0 p1 : List ℕ) × (t0 t1 : Store) × (b2a_dabit_single small_field supply0 supply1
        (true ∷ false ∷ [])
        (false ∷ false ∷ [])
        (store 0)
        (store 1)
      ≡ some ((p0, p1), (t0, t1)))
    × AreSummed small_field (true ∷ false ∷ []) (false ∷ false ∷ []) p0 p1
    × StoresMatch small_field t0 t1
b2a_dabit_single_example =
    b2a_dabit_single_lem small_field supply0 supply1 supply-SuppliesMatch (true ∷ false ∷ [])
      (false ∷ false ∷ []) (store 0) (store 1) refl store-StoresMatch

b2a_dabit_multi_example :
    (p0 p1 : List ℕ) × (t0 t1 : Store) × (b2a_dabit_multi small_field supply0 supply1
        ((5, 3) ∷ (1, 2) ∷ [])
        ((6, 3) ∷ (3, 2) ∷ [])
        (store 0)
        (store 1)
      ≡ some ((p0, p1), (t0, t1)))
    × AreJoined small_field ((5, 3) ∷ (1, 2) ∷ []) ((6, 3) ∷ (3, 2) ∷ []) p0 p1
    × StoresMatch small_field t0 t1
b2a_dabit_multi_example =
    b2a_dabit_multi_lem small_field supply0 supply1 supply-SuppliesMatch ((5, 3) ∷ (1, 2) ∷ [])
      ((6, 3) ∷ (3, 2) ∷ []) (store 0) (store 1) (refl, omega arith, (refl, omega arith, tt))
      store-StoresMatch
