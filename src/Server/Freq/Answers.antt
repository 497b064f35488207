-- ===== src/Server/Freq/Answers.antt =====
-- `freq_op`: what the answer is.
use prio_plus.Base.{
  leb, false, ◌^◌, ℕ, ◌*◌, ◌%◌, ◌<◌, ◌≡◌, refl, ◌∙◌, sym, Bool, List, [], ◌∷◌, map, some, arith,
  length, bit, Cong, ◌▸◌, cong_of_eq, get_or, ltb, if◌then◌else◌, table, length-table, replicate,
  length-append, length-replicate, length-map, u64,
}
use prio_plus.Field.{Field}
use prio_plus.Correlated.{Store, Supply, check_dabits}
use prio_plus.Correlated.Queues.{SuppliesMatch, StoresMatch}
use prio_plus.Correlated.Queues.DaBits.{check_dabits-StoresMatch}
use prio_plus.Correlated.Conversion.{b2a_dabit_single_lem}
use prio_plus.Correlated.OtConversion.{flatten}
use prio_plus.Server.{Shares, ret_ans, ret_invalid, keys, values, collect_shares, accept_all}
use prio_plus.Server.Sums.{valid_sum, valid_rows}
use prio_plus.Server.Aggregate.{find_shares, known_bits, known_shares, with_valid, max_val_of}
use prio_plus.Server.Aggregate.Rows.{HaveRowLength}
use prio_plus.Server.Aggregate.Totals.{add_arrays-Cong, add_arrays-lt}
use prio_plus.Server.Aggregate.Totals.{accumulate-converted}
use prio_plus.Server.Aggregate.Operations.{length-find_shares}
use prio_plus.Server.Freq.{summed_arrays, freq_valid, freq_op}
use prio_plus.Server.Freq.Rows.{AllSummed, rows-RowsRead, rows-AllConverted}
use prio_plus.Server.Freq.Counts.{diff_rows, xor_list-diff_rows}
use prio_plus.Server.Freq.Sums.{counted, freq_valid-counted}

pub tables-HaveRowLength : (k : ℕ) (fs : List (ℕ → Bool)) → HaveRowLength k (map (table k 0) fs)
tables-HaveRowLength k [] = tt
tables-HaveRowLength k (f ∷ fs) = (length-table k 0 f, tables-HaveRowLength k fs)

length-flatten :
    (k : ℕ) (x0 x1 : List (List Bool))
    → length x0 ≡ length x1
    → HaveRowLength k x0
    → HaveRowLength k x1
    → length (flatten x0) ≡ length (flatten x1)
unfolding flatten
length-flatten k [] [] e h0 h1 = refl
length-flatten k [] (row1 ∷ x1) e h0 h1 = absurd (omega (arith, e))
length-flatten k (row0 ∷ x0) [] e h0 h1 = absurd (omega (arith, e))
length-flatten k (row0 ∷ x0) (row1 ∷ x1) e h0 h1 = omega (
  arith,
  length-append row0 (flatten x0),
  length-append row1 (flatten x1),
  length-flatten k x0 x1 (omega (arith, e)) h0.1 h1.1,
  h0.0,
  h1.0,
)

-- The rows of server 0's shares for the keys of server 1, and those of server 1.
abbrev pub rows_of0 : (max_inp : ℕ) (m0 entries : Shares (ℕ → Bool)) → List (List Bool)
rows_of0 max_inp m0 entries =
    map (table max_inp 0) (known_shares (find_shares (keys entries) m0 (λ j. false)))

abbrev pub rows_of1 : (max_inp : ℕ) (entries : Shares (ℕ → Bool)) → List (List Bool)
rows_of1 max_inp entries = map (table max_inp 0) (values entries)

pub length-rows_of :
    (max_inp : ℕ) (m0 entries : Shares (ℕ → Bool))
    → length (rows_of0 max_inp m0 entries) ≡ length (rows_of1 max_inp entries)
length-rows_of max_inp m0 entries =
    length-map (known_shares (find_shares (keys entries) m0 (λ j. false))) (table max_inp 0)
    ∙ length-find_shares m0 entries (λ j. false)
    ∙ sym (length-map (values entries) (table max_inp 0))

module _ (K : Field) where
  -- The shared rows, each with whether it counts.
  abbrev pub counted_rows :
      (max_inp total_inputs : ℕ) (unset : ℕ → Bool) (m0 entries : Shares (ℕ → Bool))
      → List (List ℕ × Bool)
  counted_rows max_inp total_inputs unset m0 entries =
      let x0 = rows_of0 max_inp m0 entries in
      let x1 = rows_of1 max_inp entries in
      with_valid (diff_rows x0 x1) (
        counted K total_inputs (known_bits (find_shares (keys entries) m0 (λ j. false))) unset x0
          x1)

module _ (K : Field) (S0 S1 : Supply) (supply : SuppliesMatch K S0 S1) where
  -- The answer of the common course, where what `validate` sets is known from the shared rows.
  pub summed_arrays_lem :
      (width total : ℕ)
      (validate : (known : List Bool) (rows0 rows1 : List (List Bool))
          (shares0 shares1 : List (List ℕ))
        → List Bool)
      (valid : List Bool) (m0 entries : Shares (ℕ → Bool)) (s0 s1 : Store)
      → StoresMatch K s0 s1
      → (let x0 = rows_of0 width m0 entries in
          let x1 = rows_of1 width entries in
          let known = known_bits (find_shares (keys entries) m0 (λ j. false)) in
          (p q : List (List ℕ)) → AllSummed K x0 x1 p q → validate known x0 x1 p q ≡ valid)
      → (let rows =
            with_valid (diff_rows (rows_of0 width m0 entries) (rows_of1 width entries)) valid in
          (sums : List ℕ) × (t0 : Store) × (t1 : Store) × (summed_arrays K S0 S1 width total
              validate m0 entries s0 s1
            ≡ some
                (if ltb (2 * valid_rows K rows) total then ret_invalid else ret_ans sums, (t0, t1)))
          × ((j : ℕ)
              → (get_or sums j 0 < K.modulus)
                × Cong K.modulus (get_or sums j 0) (valid_sum K rows j))
          × StoresMatch K t0 t1)
  unfolding summed_arrays
  summed_arrays_lem width total validate valid m0 entries s0 s1 h judged =
      let subs0 = find_shares (keys entries) m0 (λ j. false) in
      let x0 = rows_of0 width m0 entries in
      let x1 = rows_of1 width entries in
      let same = length-rows_of width m0 entries in
      let h0 = tables-HaveRowLength width (known_shares subs0) in
      let h1 = tables-HaveRowLength width (values entries) in
      let dabits = total * width % u64 in
      let (p, q, t0, t1, made, summed, in_step) =
        b2a_dabit_single_lem K S0 S1 supply (flatten x0) (flatten x1) (check_dabits K S0 dabits s0)
          (check_dabits K S1 dabits s1) (length-flatten width x0 x1 same h0 h1)
          (check_dabits-StoresMatch K S0 S1 supply dabits s0 s1 h).0 in
      let r = rows-RowsRead K (length x1) width x0 x1 p q same refl h0 h1 summed in
      let converted = rows-AllConverted K width x0 x1 r.p_rows r.q_rows h0 r.summed in
      let sums =
        accumulate-converted K (replicate width 1) (map (map bit) x0) (map (map bit) x1) r.p_rows
          r.q_rows valid converted in
      let sums' =
        rw (length-replicate {A = ℕ} width 1, xor_list-diff_rows width x0 x1 h0) at sums in
      (
        _,
        t0,
        t1,
        rw (made, r.p_read, r.q_read, judged r.p_rows r.q_rows r.summed, sums'.0) refl,
        λ j. (
          add_arrays-lt K _ _ j,
          add_arrays-Cong K _ _ j sums'.1 ▸ cong_of_eq K.modulus (omega arith) ▸ sums'.2 j,
        ),
        in_step,
      )

  -- For stores in step and fewer than 2 ^ 32 values, `freq_op` ends with stores in step. Over the entries of server 1, with zeros
  -- for a share that server 0 does not know: when the total of the shared arrays has the parity of
  -- `total_inputs` and is equal to it modulo `Int_Modulus`, all entries count; else those count that
  -- server 0 knows, with a total of 1 modulo `Int_Modulus` and a parity of server 0's share that
  -- differs from what server 1's unset array holds. With fewer than half of `total_inputs` counted the
  -- answer is refused; else it has, modulo `Int_Modulus`, the sums of the counted arrays.
  pub freq_op_lem :
      (order : Shares (ℕ → Bool) → Shares (ℕ → Bool)) (num_bits total : ℕ) (unset : ℕ → Bool)
      (inputs0 inputs1 : Shares (ℕ → Bool)) (s0 s1 : Store)
      → StoresMatch K s0 s1
      → max_val_of num_bits < 2 ^ 32
      → (let m0 = collect_shares accept_all inputs0 [] in
          let entries = order (collect_shares accept_all inputs1 []) in
          let rows = counted_rows K (max_val_of num_bits) total unset m0 entries in
          (sums : List ℕ) × (t0 : Store) × (t1 : Store) × (freq_op K S0 S1 order num_bits total
              unset inputs0 inputs1 s0 s1
            ≡ some
                (if ltb (2 * valid_rows K rows) total then ret_invalid else ret_ans sums, (t0, t1)))
          × ((j : ℕ)
              → (get_or sums j 0 < K.modulus)
                × Cong K.modulus (get_or sums j 0) (valid_sum K rows j))
          × StoresMatch K t0 t1)
  unfolding freq_op
  freq_op_lem order num_bits total unset inputs0 inputs1 s0 s1 h words =
      let m0 = collect_shares accept_all inputs0 [] in
      let entries = order (collect_shares accept_all inputs1 []) in
      let n = max_val_of num_bits in
      let x0 = rows_of0 n m0 entries in
      let x1 = rows_of1 n entries in
      let subs0 = find_shares (keys entries) m0 (λ j. false) in
      let fits : leb (2 ^ 32) n ≡ false = ground arith in
      rw fits (
        summed_arrays_lem n total (λ known. freq_valid K total known unset)
          (counted K total (known_bits subs0) unset x0 x1) m0 entries s0 s1 h
          (λ p q summed.
            freq_valid-counted K n total (known_bits subs0) unset x0 x1 p q
              (length-rows_of n m0 entries) (tables-HaveRowLength n (known_shares subs0))
              (tables-HaveRowLength n (values entries)) summed))
