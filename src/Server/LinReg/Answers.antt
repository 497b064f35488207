-- ===== src/Server/LinReg/Answers.antt =====
-- `linreg_op`: which entries are valid, and what the answer is.
use prio_plus.Base.{
  ℕ, ap, get_or-table, get_or-append_left, get_or-append_right, suc, ◌+◌, ◌<◌, ◌≡◌, refl, sym, ◌∙◌,
  List, [], ◌∷◌, ◌++◌, some, length, get_or, arith, length-append, table, length-table,
}
use prio_plus.Field.{Field}
use prio_plus.Share.{next_power_of_two}
use prio_plus.Circuit.{num_mul_gates, check_lin_reg}
use prio_plus.Ot.{Emp}
use prio_plus.Snips.{CheckerPreComp}
use prio_plus.Server.{
  Shares, Answer, ret_ans, ret_invalid, error_exit, out_of_bounds, collect_shares, values,
}
use prio_plus.Server.Aggregate.Operations.{IsChecked, checked_sums-IsChecked, mock_packet}
use prio_plus.Server.LinReg.{
  LinRegShare, num_quad, lin_reg_fields, num_bits_at, lin_reg_bits, accept_lin_reg, lin_reg_accums,
  linreg_op,
}

length-lin_reg_fields :
    (num_x num_bits : ℕ) (s : LinRegShare)
    → length (lin_reg_fields num_x s) ≡ length (lin_reg_bits num_x num_bits)
length-lin_reg_fields num_x num_bits s =
    let rest = table (num_quad num_x) 0 s.x2_vals ++ table num_x 0 s.xy_vals in
    let long : length (table num_x 0 s.x_vals ++ (s.y ∷ rest))
        ≡ num_x + 1 + (num_quad num_x + num_x) =
      omega (
        arith,
        length-append (table num_x 0 s.x_vals) (s.y ∷ rest),
        length-append (table (num_quad num_x) 0 s.x2_vals) (table num_x 0 s.xy_vals),
        length-table num_x 0 s.x_vals,
        length-table (num_quad num_x) 0 s.x2_vals,
        length-table num_x 0 s.xy_vals,
      ) in
    long ∙ sym (length-table (num_x + 1 + (num_quad num_x + num_x)) 0 (num_bits_at num_x num_bits))

-- The answer for the number of the valid entries and the sums of their fields, at the place `j` of
-- the arrays of `num_x` values and the place `k` of that of the products.
abbrev pub IsLaidOut :
    (get_si : ℕ → ℕ) (num_x j k : ℕ) → Answer (ℕ × List ℕ) → Answer (List ℕ × List ℕ) → Type 0
IsLaidOut get_si num_x j k (ret_ans (num_valid, b)) (ret_ans (x_accum, y_accum)) =
    (get_or x_accum 0 0 ≡ num_valid)
    × (get_or x_accum (1 + j) 0 ≡ get_si (get_or b j 0))
    × (get_or x_accum (1 + (num_x + k)) 0 ≡ get_si (get_or b (suc num_x + k) 0))
    × (get_or y_accum 0 0 ≡ get_si (get_or b num_x 0))
    × (get_or y_accum (1 + j) 0 ≡ get_si (get_or b (suc num_x + num_quad num_x + j) 0))
IsLaidOut get_si num_x j k ret_invalid ret_invalid = Unit {0}
IsLaidOut get_si num_x j k error_exit error_exit = Unit {0}
IsLaidOut get_si num_x j k out_of_bounds out_of_bounds = Unit {0}
IsLaidOut get_si num_x j k _ _ = ⊥

accums-IsLaidOut :
    (get_si : ℕ → ℕ) (num_x j k : ℕ) (sums : Answer (ℕ × List ℕ))
    → j < num_x
    → k < num_quad num_x
    → IsLaidOut get_si num_x j k sums (lin_reg_accums get_si num_x sums)
unfolding lin_reg_accums
accums-IsLaidOut get_si num_x j k (ret_ans (num_valid, b)) lj lk =
    let at : ℕ → ℕ = λ i. get_si (get_or b i 0) in
    let xs = table num_x 0 at in
    let quads = table (num_quad num_x) (suc num_x) at in
    let long = length-table num_x 0 at in
    let e : 0 + j ≡ j = omega arith in
    let next : 1 + j ≡ suc j = omega arith in
    let next_quad : 1 + (num_x + k) ≡ suc (num_x + k) = omega arith in
    (
      refl,
      rw next (
          get_or-append_left xs quads j 0 (omega (arith, long, lj))
          ∙ get_or-table num_x 0 j at 0 lj
          ∙ ap at e),
      rw next_quad (
          get_or-append_right num_x xs quads k 0 long
          ∙ get_or-table (num_quad num_x) (suc num_x) k at 0 lk),
      refl,
      rw next (get_or-table num_x (suc num_x + num_quad num_x) j at 0 lj),
    )
accums-IsLaidOut get_si num_x j k ret_invalid lj lk = tt
accums-IsLaidOut get_si num_x j k error_exit lj lk = tt
accums-IsLaidOut get_si num_x j k out_of_bounds lj lk = tt

module _ (K : Field) (E : Emp) (get_si : ℕ → ℕ) where
  linreg_op-accums :
      (order : Shares LinRegShare → Shares LinRegShare) (num_x num_bits n_roots : ℕ)
      (absent : LinRegShare) (pre : CheckerPreComp) (draws : ℕ → ℕ) (snip_draws : ℕ → ℕ → ℕ)
      (total_inputs : ℕ) (inputs0 inputs1 : Shares LinRegShare)
      → 0 < length (values (order (collect_shares (accept_lin_reg num_x num_bits) inputs1 [])))
      → next_power_of_two (num_mul_gates (check_lin_reg K (suc num_x))) ≡ some n_roots
      → (mock : LinRegShare) × (sums : Answer (ℕ × List ℕ)) × IsChecked K E
          (lin_reg_fields num_x)
          (λ s. s.packet)
          mock
          (check_lin_reg K (suc num_x))
          n_roots
          (lin_reg_bits num_x num_bits)
          pre
          draws
          snip_draws
          total_inputs
          (collect_shares (accept_lin_reg num_x num_bits) inputs0 [])
          (order (collect_shares (accept_lin_reg num_x num_bits) inputs1 []))
          (some sums)
        × (linreg_op K E get_si order num_x num_bits absent pre draws snip_draws total_inputs
              inputs0 inputs1
            ≡ lin_reg_accums get_si num_x sums)
  unfolding linreg_op
  linreg_op-accums order num_x num_bits n_roots absent pre draws snip_draws total inputs0 inputs1
        some_input roots =
      let (packet, made) =
        mock_packet (num_mul_gates (check_lin_reg K (suc num_x))) n_roots roots in
      let mock : LinRegShare = record {
        x_vals = absent.x_vals;
        y = 0;
        x2_vals = absent.x2_vals;
        xy_vals = absent.xy_vals;
        packet = packet;
      } in
      let r =
        checked_sums-IsChecked K E (lin_reg_fields num_x) (λ s. s.packet) mock
          (check_lin_reg K (suc num_x)) n_roots (lin_reg_bits num_x num_bits) pre draws snip_draws
          total (collect_shares (accept_lin_reg num_x num_bits) inputs0 [])
          (order (collect_shares (accept_lin_reg num_x num_bits) inputs1 [])) some_input
          (length-lin_reg_fields num_x num_bits) roots in
      (mock, _, (r.0, r.1, r.2, r.3, r.4, r.5, r.6, refl, r.8), rw (made, r.7) refl)

  -- LINREG, when server 1 has accepted a share, for any modulus, and a circuit whose number of roots
  -- is found: among the accepted entries of server 1 the valid ones are those whose key server 0 knows
  -- and whose proof both servers accept, for the rows that `share_convert` gives them. With fewer than
  -- half of `total_inputs` valid the answer is refused; else `x_accum` and `y_accum` hold the number of
  -- the valid entries and, at every other place, what `fmpz_get_si` returns for a number that is, modulo
  -- `Int_Modulus`, the sum of the two servers' rows of the valid entries at the field that belongs
  -- there.
  pub linreg_op-IsChecked :
      (order : Shares LinRegShare → Shares LinRegShare) (num_x num_bits n_roots j k : ℕ)
      (absent : LinRegShare) (pre : CheckerPreComp) (draws : ℕ → ℕ) (snip_draws : ℕ → ℕ → ℕ)
      (total_inputs : ℕ) (inputs0 inputs1 : Shares LinRegShare)
      → 0 < length (values (order (collect_shares (accept_lin_reg num_x num_bits) inputs1 [])))
      → next_power_of_two (num_mul_gates (check_lin_reg K (suc num_x))) ≡ some n_roots
      → j < num_x
      → k < num_quad num_x
      → (mock : LinRegShare) × (sums : Answer (ℕ × List ℕ)) × IsChecked K E
          (lin_reg_fields num_x)
          (λ s. s.packet)
          mock
          (check_lin_reg K (suc num_x))
          n_roots
          (lin_reg_bits num_x num_bits)
          pre
          draws
          snip_draws
          total_inputs
          (collect_shares (accept_lin_reg num_x num_bits) inputs0 [])
          (order (collect_shares (accept_lin_reg num_x num_bits) inputs1 []))
          (some sums)
        × IsLaidOut get_si num_x j k sums (
            linreg_op K E get_si order num_x num_bits absent pre draws snip_draws total_inputs
              inputs0 inputs1)
  linreg_op-IsChecked order num_x num_bits n_roots j k absent pre draws snip_draws total inputs0
        inputs1 some_input roots lj lk =
      let (mock, sums, checked, e) =
        linreg_op-accums order num_x num_bits n_roots absent pre draws snip_draws total inputs0
          inputs1 some_input roots in
      (mock, sums, checked, rw e (accums-IsLaidOut get_si num_x j k sums lj lk))
