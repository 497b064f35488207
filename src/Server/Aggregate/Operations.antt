-- ===== src/Server/Aggregate/Operations.antt =====
-- `checked_sums`, `var_op` and `linreg_op`: what the answer is.
use prio_plus.Base.{
  ℕ, suc, ◌+◌, ◌*◌, ◌<◌, ◌≡◌, refl, ap, ◌∙◌, sym, Bool, List, [], ◌∷◌, map, Option, some, length,
  ltb, get_or, arith, Cong, ◌▸◌, add-Cong, if◌then◌else◌, length-map, Option-cases, inl, inr,
}
use mathlib.Core.Option.{none-ne-some}
use prio_plus.Field.{Field}
use prio_plus.Share.{ClientPacket, next_power_of_two, next_power_loop, client_packet}
use prio_plus.Circuit.{Circuit, num_mul_gates, check_var}
use prio_plus.Ot.{Emp, ot_transfer, choice_shares, intsum_ot_sender, intsum_ot_receiver}
use prio_plus.Correlated.OtConversion.{all_valid, b2a_ot, flatten}
use prio_plus.Snips.{CheckerPreComp, validate_snips}
use prio_plus.Server.{
  Shares, Answer, ret_ans, ret_invalid, keys, values, accumulate, collect_shares,
}
use prio_plus.Server.Sums.{valid_sum, accumulate-Cong, length-accumulate}
use prio_plus.Server.Aggregate.{
  find_shares, known_shares, known_bits, and_bits, snip_batch, with_valid, add_arrays,
  share_convert, checked_sums, VarShare, var_fields, accept_var, var_op,
}
use prio_plus.Server.Aggregate.Rows.{HaveRowLength, read_rows-flatten}
use prio_plus.Server.Aggregate.Judged.{
  AreJudged, judge, batch-AreJudged, count_valid_bits, valid_rows-with_valid,
}
use prio_plus.Server.Aggregate.Lengths.{intsum_ot_sender-rows, intsum_ot_receiver-rows}
use prio_plus.Server.Aggregate.Totals.{HaveLength-with_valid, add_arrays-Cong}

fields-HaveRowLength :
    {V : Type 0} (fields : V → List ℕ) (k : ℕ) (vs : List V)
    → ((v : V) → length (fields v) ≡ k)
    → HaveRowLength k (map fields vs)
fields-HaveRowLength fields k [] h = tt
fields-HaveRowLength fields k (v ∷ vs) h = (h v, fields-HaveRowLength fields k vs h)

pub length-find_shares :
    {V : Type 0} (m0 entries : Shares V) (absent : V)
    → length (known_shares (find_shares (keys entries) m0 absent)) ≡ length (values entries)
unfolding find_shares
length-find_shares m0 [] absent = refl
length-find_shares m0 ((k, v) ∷ entries) absent = ap suc (length-find_shares m0 entries absent)

length-all_valid : (rows : List (List ℕ)) → length (all_valid rows) ≡ length rows
length-all_valid [] = refl
length-all_valid (row ∷ rows) = ap suc (length-all_valid rows)

-- What `share_convert` gives the two servers, as rows.
share_convert-rows :
    (K : Field) (E : Emp) (ns : List ℕ) (draws : ℕ → ℕ) (n : ℕ) (x0 x1 : List (List ℕ))
    → length x0 ≡ n
    → length x1 ≡ n
    → HaveRowLength (length ns) x0
    → HaveRowLength (length ns) x1
    → (let out = intsum_ot_sender (all_valid x0) ns K.modulus draws in
        let r = ot_transfer E out.b0 out.b1 (choice_shares x1 ns) in
        share_convert K E ns draws n (flatten x0) (flatten x1)
        ≡ some (
          flatten out.result,
          flatten (intsum_ot_receiver r (length (all_valid x0)) ns K.modulus),
        ))
unfolding share_convert b2a_ot
share_convert-rows K E ns draws n x0 x1 e0 e1 h0 h1 =
    rw (read_rows-flatten n (length ns) x0 e0 h0, read_rows-flatten n (length ns) x1 e1 h1) refl

module _ (K : Field) where
  -- What the two servers accumulate over the valid rows, and add.
  total_sums :
      (k : ℕ) (p q : List (List ℕ)) (valid : List Bool) (j : ℕ)
      → HaveRowLength k p
      → HaveRowLength k q
      → (let a = accumulate K k (with_valid p valid) in
          let b = accumulate K k (with_valid q valid) in
          Cong K.modulus
            (get_or (add_arrays K b.1 a.1) j 0)
            (valid_sum K (with_valid p valid) j + valid_sum K (with_valid q valid) j))
  total_sums k p q valid j hp hq =
      let in_p = HaveLength-with_valid K k p valid hp in
      let in_q = HaveLength-with_valid K k q valid hq in
      add_arrays-Cong K _ _ j (
        length-accumulate K k (with_valid q valid) in_q
        ∙ sym (length-accumulate K k (with_valid p valid) in_p))
      ▸ add-Cong (accumulate-Cong K k (with_valid p valid) j in_p).1
          (accumulate-Cong K k (with_valid q valid) j in_q).1

-- The verdicts of `validate_snips` on the batch of some inputs.
validate_snips-judge :
    (K : Field) {V : Type 0} (fields : V → List ℕ) (packet : V → ClientPacket) (ckt : Circuit)
    (n_roots : ℕ) (pre : CheckerPreComp) (snip_draws : ℕ → ℕ → ℕ) (subs0 : List (V × Bool))
    (subs1 : List V) (p q : List (List ℕ))
    → next_power_of_two (num_mul_gates ckt) ≡ some n_roots
    → 0 < length subs1
    → length (known_shares subs0) ≡ length subs1
    → length p ≡ length subs1
    → length q ≡ length subs1
    → (let batch = snip_batch fields packet 0 snip_draws subs0 subs1 p q in
        validate_snips K ckt pre batch
        ≡ some (judge K fields packet ckt n_roots pre snip_draws batch))
unfolding validate_snips
validate_snips-judge K fields packet ckt n_roots pre snip_draws ((v0, known) ∷ subs0) (v1 ∷ subs1)
      (row0 ∷ p) (row1 ∷ q) roots some_input h hp hq =
    rw (validate_snips, roots) refl
validate_snips-judge K fields packet ckt n_roots pre snip_draws subs0 [] p q roots some_input h hp
      hq =
    absurd (omega (arith, some_input))
validate_snips-judge K fields packet ckt n_roots pre snip_draws [] (v1 ∷ subs1) p q roots some_input
      h hp hq =
    absurd (omega (arith, h))
validate_snips-judge K fields packet ckt n_roots pre snip_draws (s ∷ subs0) (v1 ∷ subs1) [] q roots
      some_input h hp hq =
    absurd (omega (arith, hp))
validate_snips-judge K fields packet ckt n_roots pre snip_draws (s ∷ subs0) (v1 ∷ subs1) (row ∷ p)
      [] roots some_input h hp hq =
    absurd (omega (arith, hq))

module _ (K : Field) (E : Emp) {V : Type 0} (fields : V → List ℕ) (packet : V → ClientPacket)
    (absent : V) (ckt : Circuit) (n_roots : ℕ) (ns : List ℕ) (pre : CheckerPreComp) (draws : ℕ → ℕ)
    (snip_draws : ℕ → ℕ → ℕ) where
  -- The rows that `share_convert` gives the two servers, the validity of each entry for them, and an
  -- answer with the number of the valid entries and, at each place and modulo `Int_Modulus`, the sum
  -- of both servers' rows of the valid entries.
  abbrev pub IsChecked :
      (total_inputs : ℕ) (m0 entries : Shares V) → Option (Answer (ℕ × List ℕ)) → Type 0
  IsChecked total_inputs m0 entries answer =
      let subs0 = find_shares (keys entries) m0 absent in
      let subs1 = values entries in
      (p : List (List ℕ)) × (q : List (List ℕ)) × (valid : List Bool) × (sums : List ℕ)
      × (share_convert K E ns draws (length subs1) (flatten (map fields (known_shares subs0)))
            (flatten (map fields subs1))
          ≡ some (flatten p, flatten q))
      × (HaveRowLength (length ns) p × HaveRowLength (length ns) q)
      × AreJudged K fields packet ckt n_roots pre snip_draws 0 subs0 subs1 p q valid
      × (answer
          ≡ some (
              if ltb (2 * count_valid_bits valid) total_inputs
              then ret_invalid
              else ret_ans (count_valid_bits valid, sums)))
      × ((j : ℕ)
          → Cong K.modulus (get_or sums j 0)
              (valid_sum K (with_valid p valid) j + valid_sum K (with_valid q valid) j))

  pub checked_sums-IsChecked :
      (total_inputs : ℕ) (m0 entries : Shares V)
      → 0 < length (values entries)
      → ((v : V) → length (fields v) ≡ length ns)
      → next_power_of_two (num_mul_gates ckt) ≡ some n_roots
      → IsChecked total_inputs m0 entries (
          checked_sums K E fields packet absent ckt ns pre draws snip_draws total_inputs m0 entries)
  unfolding checked_sums
  checked_sums-IsChecked total m0 entries some_input long roots =
      let subs0 = find_shares (keys entries) m0 absent in
      let subs1 = values entries in
      let x0 = map fields (known_shares subs0) in
      let x1 = map fields subs1 in
      let n = length subs1 in
      let same = length-find_shares m0 entries absent in
      let e0 = length-map (known_shares subs0) fields ∙ same in
      let row_length = fields-HaveRowLength fields (length ns) (known_shares subs0) long in
      let out = intsum_ot_sender (all_valid x0) ns K.modulus draws in
      let r = ot_transfer E out.b0 out.b1 (choice_shares x1 ns) in
      let q = intsum_ot_receiver r (length (all_valid x0)) ns K.modulus in
      let (p_many, p_long) = intsum_ot_sender-rows ns x0 K.modulus draws row_length in
      let (q_many, q_long) = intsum_ot_receiver-rows ns (length (all_valid x0)) K.modulus r in
      let p_n = p_many ∙ e0 in
      let q_n = q_many ∙ length-all_valid x0 ∙ e0 in
      let (judged, valid_n) =
        batch-AreJudged K fields packet ckt n_roots pre snip_draws 0 subs0 subs1 out.result q same
          p_n q_n in
      let valid = and_bits (known_bits subs0) (
        judge K fields packet ckt n_roots pre snip_draws
          (snip_batch fields packet 0 snip_draws subs0 subs1 out.result q)) in
      let in_p = HaveLength-with_valid K (length ns) out.result valid p_long in
      let convert =
        share_convert-rows K E ns draws n x0 x1 e0 (length-map subs1 fields) row_length
          (fields-HaveRowLength fields (length ns) subs1 long) in
      (
        out.result,
        q,
        valid,
        _,
        convert,
        (p_long, q_long),
        judged,
        rw
            (
              convert,
              read_rows-flatten n (length ns) out.result p_n p_long,
              read_rows-flatten n (length ns) q q_n q_long,
              validate_snips-judge K fields packet ckt n_roots pre snip_draws subs0 subs1 out.result
                  q roots some_input same p_n q_n,
              (accumulate-Cong K (length ns) (with_valid out.result valid) 0 in_p).0
                  ∙ valid_rows-with_valid K out.result valid (p_n ∙ sym valid_n),
            )
            refl,
        λ j. total_sums K (length ns) out.result q valid j p_long q_long,
      )

pub var_roots : (K : Field) → next_power_of_two (num_mul_gates (check_var K)) ≡ some 2
unfolding next_power_of_two next_power_loop num_mul_gates check_var
var_roots K = refl

-- The mock packet exists where the number of roots does.
pub mock_packet :
    (n k : ℕ) → next_power_of_two n ≡ some k → (p : ClientPacket) × (client_packet n ≡ some p)
unfolding client_packet
mock_packet n k e = elim (Option-cases (client_packet n)) [
  | inl absent ↦ absurd (none-ne-some _ (sym (rw (client_packet, e) at absent)))
  | inr found ↦ found
]

module _ (K : Field) (E : Emp) where
  -- VAR and STDDEV, when server 1 has accepted a share, for any modulus: among the accepted entries of
  -- server 1 the valid ones are those whose key server 0 knows and whose proof both servers accept, for
  -- the rows that `share_convert` gives them. With fewer than half of `total_inputs` valid the answer
  -- is refused; else it is computed from their number and, modulo `Int_Modulus`, the sums of the two
  -- servers' rows of the valid entries.
  pub var_op-IsChecked :
      (order : Shares VarShare → Shares VarShare) (num_bits : ℕ) (pre : CheckerPreComp)
      (draws : ℕ → ℕ) (snip_draws : ℕ → ℕ → ℕ) (total_inputs : ℕ)
      (inputs0 inputs1 : Shares VarShare)
      → 0 < length (values (order (collect_shares (accept_var num_bits) inputs1 [])))
      → (mock : ClientPacket) × IsChecked K E var_fields
          (λ s. s.packet)
          (record { val = 0; val_squared = 0; packet = mock })
          (check_var K)
          2
          (num_bits ∷ num_bits * 2 ∷ [])
          pre
          draws
          snip_draws
          total_inputs
          (collect_shares (accept_var num_bits) inputs0 [])
          (order (collect_shares (accept_var num_bits) inputs1 []))
          (some (var_op K E order num_bits pre draws snip_draws total_inputs inputs0 inputs1))
  unfolding var_op
  var_op-IsChecked order num_bits pre draws snip_draws total inputs0 inputs1 some_input =
      let (mock, made) = mock_packet (num_mul_gates (check_var K)) 2 (var_roots K) in
      let r =
        checked_sums-IsChecked K E var_fields (λ s. s.packet)
          (record { val = 0; val_squared = 0; packet = mock }) (check_var K) 2
          (num_bits ∷ num_bits * 2 ∷ []) pre draws snip_draws total
          (collect_shares (accept_var num_bits) inputs0 [])
          (order (collect_shares (accept_var num_bits) inputs1 [])) some_input (λ v. refl)
          (var_roots K) in
      (mock, (r.0, r.1, r.2, r.3, r.4, r.5, r.6, rw (made, r.7) refl, r.8))
