-- ===== src/Examples/Servers.antt =====
-- Runs of the servers' operations: three clients, one of which only server 1 knows, and one of which
-- sends twice.
use prio_plus.Base.{
  xor_value, ℕ, suc, zero, ◌*◌, ◌-◌, ◌%◌, ◌<◌, ◌≤◌, ◌≡◌, ◌≢◌, refl, Bool, true, false, List, [],
  ◌∷◌, arith, u64, ltb, if◌then◌else◌, get_or, Cong,
}
use prio_plus.Field.Native.{small_field}
use prio_plus.Server.{
  Shares, ret_ans, ret_invalid, and_op, max_op_type, min_op_type, find, keys, get_in,
  collect_shares, accept_all, bit_sum, xor_op, max_op, xor_answer, accumulate,
}
use prio_plus.Server.Collect.{first_accepted, collect_shares-find}
use prio_plus.Server.Sums.{
  count_ones, count_shared, bit_sum_lem, valid_sum, valid_rows, accumulate-Cong,
}
use prio_plus.Server.Xor.Folds.{count_known, xor_of_shares}
use prio_plus.Server.Xor.Answers.{map_of, asked, xor_op_lem, max_op-highest, xor_at}
use prio_plus.Examples.{emp, draws, draws-lt}

abbrev bits_at0 : Shares Bool
bits_at0 = (11, true) ∷ (12, false) ∷ (11, false) ∷ []

abbrev bits_at1 : Shares Bool
bits_at1 = (11, false) ∷ (13, true) ∷ (12, false) ∷ []

abbrev kept : {V : Type 0} → Shares V → Shares V
kept m = m

collect_shares_example :
    find 11 (collect_shares accept_all bits_at0 []) ≡ first_accepted accept_all 11 bits_at0
collect_shares_example = collect_shares-find accept_all 11 bits_at0

bit_sum_example : bit_sum emp kept draws 3 bits_at0 bits_at1 ≡ (
    if ltb
      (2
        * count_shared
            (kept (collect_shares accept_all bits_at1 []))
            (collect_shares accept_all bits_at0 []))
      3
    then ret_invalid
    else ret_ans (
        count_ones
          (kept (collect_shares accept_all bits_at1 []))
          (collect_shares accept_all bits_at0 [])
        % u64))
bit_sum_example = bit_sum_lem emp kept draws 3 bits_at0 bits_at1 draws-lt

abbrev words_at0 : Shares ℕ
words_at0 = (11, 9) ∷ (12, 6) ∷ []

abbrev words_at1 : Shares ℕ
words_at1 = (12, 6) ∷ (13, 4) ∷ (11, 9) ∷ []

xor_op_example : xor_op and_op kept 3 words_at0 words_at1 ≡ (
    if ltb (2 * count_known (keys (kept (map_of words_at1))) (map_of words_at0)) 3
    then ret_invalid
    else xor_answer and_op (
        xor_of_shares
          (λ v. v)
          (keys (kept (map_of words_at1)))
          (map_of words_at0)
          (get_in 0 (map_of words_at1))))
xor_op_example = xor_op_lem and_op kept 3 words_at0 words_at1

abbrev array : (a b c : ℕ) → ℕ → ℕ
array a b c zero = a
array a b c (suc zero) = b
array a b c (suc (suc j)) = c

abbrev arrays_at0 : Shares (ℕ → ℕ)
arrays_at0 = (11, array 3 5 8) ∷ (12, array 1 7 2) ∷ []

abbrev arrays_at1 : Shares (ℕ → ℕ)
arrays_at1 = (12, array 4 2 2) ∷ (11, array 6 5 8) ∷ []

differ_at_one : xor_at 1 (asked kept arrays_at1) arrays_at0 arrays_at1 ≢ 0
unfolding xor_value collect_shares
differ_at_one h = absurd (omega arith)

same_above : (i : ℕ) → 1 < i → i ≤ 2 → xor_at i (asked kept arrays_at1) arrays_at0 arrays_at1 ≡ 0
unfolding xor_value collect_shares
same_above zero low high = absurd (omega arith)
same_above (suc zero) low high = absurd (omega arith)
same_above (suc (suc i)) low high = refl

enough_known : 2 ≤ 2 * count_known (asked kept arrays_at1) (map_of arrays_at0)
unfolding collect_shares
enough_known = omega arith

max_op_example :
    (max_op max_op_type kept 2 2 arrays_at0 arrays_at1 ≡ ret_ans 1)
    × (max_op min_op_type kept 2 2 arrays_at0 arrays_at1 ≡ ret_ans (2 - 1))
max_op_example =
    max_op-highest kept 2 2 1 arrays_at0 arrays_at1 enough_known (omega arith) (omega arith)
      differ_at_one same_above

abbrev rows : List (List ℕ × Bool)
rows = (4 ∷ 12 ∷ [], true) ∷ (1 ∷ 1 ∷ [], false) ∷ (10 ∷ 5 ∷ [], true) ∷ []

accumulate_example :
    ((accumulate small_field 2 rows).0 ≡ valid_rows small_field rows)
    × Cong 13 (get_or (accumulate small_field 2 rows).1 1 0) (valid_sum small_field rows 1)
accumulate_example = accumulate-Cong small_field 2 rows 1 (refl, (refl, (refl, tt)))
