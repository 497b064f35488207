-- ===== src/Correlated/OtConversion.antt =====
-- `b2a_ot`: integers shared by exclusive or become integers shared by a sum, by oblivious transfer.
use prio_plus.Base.{ℕ, Bool, true, List, [], ◌∷◌, ◌++◌, length, xor_value}
use prio_plus.Ot.{Emp, ot_transfer, choice_shares, intsum_ot_sender, intsum_ot_receiver}

-- The last loops of `b2a_ot`.
unfoldable pub flatten : {A : Type 0} → List (List A) → List A
flatten [] = []
flatten (row ∷ rows) = row ++ flatten rows

-- `valid` is true for every share.
abbrev pub all_valid : List (List ℕ) → List (List ℕ × Bool)
all_valid [] = []
all_valid (row ∷ rows) = (row, true) ∷ all_valid rows

-- The two servers' calls of `b2a_ot`, with the rows of values of each.
unfoldable pub b2a_ot :
    (E : Emp) (num_bits : List ℕ) (x0 x1 : List (List ℕ)) (m : ℕ) (draws : ℕ → ℕ) → List ℕ × List ℕ
unfolding flatten
b2a_ot E num_bits x0 x1 m draws =
    let out = intsum_ot_sender (all_valid x0) num_bits m draws in
    let r = ot_transfer E out.b0 out.b1 (choice_shares x1 num_bits) in
    (flatten out.result, flatten (intsum_ot_receiver r (length (all_valid x0)) num_bits m))

-- The exclusive or of the values of a row, each with its number of bits.
abbrev pub xor_row : (ns row0 row1 : List ℕ) → List ℕ
xor_row (n ∷ ns) (a ∷ row0) (b ∷ row1) = xor_value n a b ∷ xor_row ns row0 row1
xor_row _ _ _ = []
