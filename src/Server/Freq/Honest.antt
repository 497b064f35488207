-- ===== src/Server/Freq/Honest.antt =====
-- `freq_op`: clients whose arrays have one 1 each.
use prio_plus.Base.{
  ◌^◌, ℕ, zero, suc, ◌+◌, ◌*◌, ◌%◌, ◌<◌, ◌≤◌, ◌≡◌, refl, ap, ◌∙◌, sym, Bool, true, false, List, [],
  ◌∷◌, some, arith, length, get_or, ltb, table, replicate, eq_of_cong, length-map, ◌==◌, ==_iff,
}
use native.Mathlib.Nat.{mod-eq_of_lt}
use prio_plus.Field.{Field}
use prio_plus.Correlated.{Store, Supply}
use prio_plus.Correlated.Queues.{SuppliesMatch, StoresMatch}
use prio_plus.Server.{Shares, ret_ans, keys, values, collect_shares, accept_all}
use prio_plus.Server.Sums.{valid_sum, valid_rows}
use prio_plus.Server.Aggregate.{find_shares, known_bits, with_valid, max_val_of}
use prio_plus.Server.Freq.{freq_op}
use prio_plus.Server.Freq.Counts.{diff_rows, total_of, grand_total}
use prio_plus.Server.Freq.Sums.{counted}
use prio_plus.Server.Freq.Answers.{length-rows_of, rows_of0, rows_of1, freq_op_lem}

-- Every shared row has one 1.
abbrev pub HaveOneEach : List (List ℕ) → Type 0
HaveOneEach [] = Unit {0}
HaveOneEach (row ∷ rows) = (total_of row ≡ 1) × HaveOneEach rows

-- The number of the rows with a 1 at a place.
abbrev pub frequency : List (List ℕ) → (j : ℕ) → ℕ
frequency [] j = 0
frequency (row ∷ rows) j = get_or row j 0 + frequency rows j

get_or-total_of : (row : List ℕ) (j : ℕ) → get_or row j 0 ≤ total_of row
get_or-total_of [] j = omega arith
get_or-total_of (x ∷ row) zero = omega arith
get_or-total_of (x ∷ row) (suc j) = omega (arith, get_or-total_of row j)

frequency-le : (rows : List (List ℕ)) (j : ℕ) → HaveOneEach rows → frequency rows j ≤ length rows
frequency-le [] j h = omega arith
frequency-le (row ∷ rows) j h = omega (arith, get_or-total_of row j, h.0, frequency-le rows j h.1)

grand_total-ones : (rows : List (List ℕ)) → HaveOneEach rows → grand_total rows ≡ length rows
grand_total-ones [] h = refl
grand_total-ones (row ∷ rows) h = omega (arith, h.0, grand_total-ones rows h.1)

pub all_count :
    (K : Field) (rows : List (List ℕ)) (j : ℕ)
    → (let counts = with_valid rows (replicate (length rows) true) in
        (valid_rows K counts ≡ length rows) × (valid_sum K counts j ≡ frequency rows j))
all_count K [] j = (refl, refl)
all_count K (row ∷ rows) j =
    let ih = all_count K rows j in (omega (arith, ih.0), omega (arith, ih.1))

pub length-diff_rows :
    (x0 x1 : List (List Bool)) → length x0 ≡ length x1 → length (diff_rows x0 x1) ≡ length x1
length-diff_rows [] [] e = refl
length-diff_rows [] (row1 ∷ x1) e = absurd (omega (arith, e))
length-diff_rows (row0 ∷ x0) [] e = absurd (omega (arith, e))
length-diff_rows (row0 ∷ x0) (row1 ∷ x1) e = ap suc (length-diff_rows x0 x1 (omega (arith, e)))

pub length-known_bits :
    (m0 entries : Shares (ℕ → Bool))
    → length (known_bits (find_shares (keys entries) m0 (λ j. false))) ≡ length (values entries)
unfolding find_shares
length-known_bits m0 [] = refl
length-known_bits m0 ((k, v) ∷ entries) = ap suc (length-known_bits m0 entries)

module _ (K : Field) where
  -- The batch check passes, and all rows count.
  counted-all :
      (total : ℕ) (known : List Bool) (unset : ℕ → Bool) (x0 x1 : List (List Bool))
      → length x0 ≡ length x1
      → length known ≡ length x1
      → HaveOneEach (diff_rows x0 x1)
      → length x1 ≡ total
      → total < K.modulus
      → counted K total known unset x0 x1 ≡ replicate (length (diff_rows x0 x1)) true
  counted-all total known unset x0 x1 same long one all small =
      let rows = length-diff_rows x0 x1 same in
      let g : grand_total (diff_rows x0 x1) ≡ total =
        grand_total-ones (diff_rows x0 x1) one ∙ rows ∙ all in
      let t : (total % 2 == total % 2) ≡ true = (==_iff _ _).1 refl in
      let u : (total % K.modulus == total) ≡ true = (==_iff _ _).1 (mod-eq_of_lt small) in
      rw (g, t, u, rows, long) refl

module _ (K : Field) (S0 S1 : Supply) (supply : SuppliesMatch K S0 S1) where
  -- When each shared array has one 1, there are `total_inputs` entries and that number is below
  -- `Int_Modulus`, and there are fewer than 2 ^ 32 values, `freq_op` answers at each place with the number of the arrays that have their 1
  -- there, whatever server 1's unset array holds.
  pub freq_op-honest :
      (order : Shares (ℕ → Bool) → Shares (ℕ → Bool)) (num_bits : ℕ) (unset : ℕ → Bool)
      (inputs0 inputs1 : Shares (ℕ → Bool)) (s0 s1 : Store)
      → StoresMatch K s0 s1
      → max_val_of num_bits < 2 ^ 32
      → (let m0 = collect_shares accept_all inputs0 [] in
          let entries = order (collect_shares accept_all inputs1 []) in
          let n = max_val_of num_bits in
          HaveOneEach (diff_rows (rows_of0 n m0 entries) (rows_of1 n entries)))
      → length (values (order (collect_shares accept_all inputs1 []))) < K.modulus
      → (let m0 = collect_shares accept_all inputs0 [] in
          let entries = order (collect_shares accept_all inputs1 []) in
          let n = max_val_of num_bits in
          (sums : List ℕ) × (t0 : Store) × (t1 : Store) × (freq_op K S0 S1 order num_bits
              (length (values entries))
              unset
              inputs0
              inputs1
              s0
              s1
            ≡ some (ret_ans sums, (t0, t1)))
          × ((j : ℕ)
              → get_or sums j 0
                ≡ frequency (diff_rows (rows_of0 n m0 entries) (rows_of1 n entries)) j))
  freq_op-honest order num_bits unset inputs0 inputs1 s0 s1 h words one small =
      let m0 = collect_shares accept_all inputs0 [] in
      let entries = order (collect_shares accept_all inputs1 []) in
      let n = max_val_of num_bits in
      let x0 = rows_of0 n m0 entries in
      let x1 = rows_of1 n entries in
      let total = length (values entries) in
      let rows = diff_rows x0 x1 in
      let subs0 = find_shares (keys entries) m0 (λ j. false) in
      let in_x1 = length-map (values entries) (table n 0) in
      let same : length x0 ≡ length x1 = length-rows_of n m0 entries in
      let all =
        counted-all K total (known_bits subs0) unset x0 x1 same
          (length-known_bits m0 entries ∙ sym in_x1) one in_x1 small in
      let (sums, t0, t1, run, at_place, _) =
        freq_op_lem K S0 S1 supply order num_bits total unset inputs0 inputs1 s0 s1 h words in
      let long : length rows ≡ total = length-diff_rows x0 x1 same ∙ in_x1 in
      let enough : ltb (2 * total) total ≡ false = ground arith in
      (
        sums,
        t0,
        t1,
        rw (all, (all_count K rows 0).0, long, enough) at run,
        λ j.
            let below : frequency rows j < K.modulus =
              omega (arith, frequency-le rows j one, long, small) in
            let same_j = rw (all, (all_count K rows j).1) at (at_place j).1 in
            eq_of_cong (at_place j).0 below same_j,
      )
