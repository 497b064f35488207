-- ===== src/Server/Sums.antt =====
-- `bit_sum` and `accumulate`: what server 0 answers, and what the accepted rows add up to.
use prio_plus.Base.{
  ℕ, zero, suc, ◌+◌, ◌*◌, ◌%◌, ◌<◌, ◌≡◌, refl, ap, ◌∙◌, sym, Bool, true, false, List, [], ◌∷◌,
  Option-cases, inl, inr, arith, xor, bit, length, u64, ltb, if◌then◌else◌, get_or, Cong, ◌▸◌,
  cong_of_eq, cong_refl, add-Cong,
}
use prio_plus.Field.{Field, add_mod-Cong}
use prio_plus.Ot.{Emp}
use prio_plus.Ot.BitSum.{valid_xor_sum, bitsum_ot-Cong}
use prio_plus.Server.{
  Shares, ret_ans, ret_invalid, find, on_found, keys, values, look_up, count_valid, collect_shares,
  accept_all, bit_sum, accumulate, accumulate_loop, accumulate_row, zero_array,
}

-- The number of entries whose key server 0 knows with the other bit.
abbrev pub count_ones : Shares Bool → Shares Bool → ℕ
count_ones [] m0 = 0
count_ones ((k, t) ∷ m1) m0 = on_found (find k m0) 0 (λ s. bit (xor s t)) + count_ones m1 m0

abbrev pub count_shared : Shares Bool → Shares Bool → ℕ
count_shared [] m0 = 0
count_shared ((k, t) ∷ m1) m0 = on_found (find k m0) 0 (λ s. 1) + count_shared m1 m0

look_up-sum :
    (m1 m0 : Shares Bool) → valid_xor_sum (look_up (keys m1) m0) (values m1) ≡ count_ones m1 m0
unfolding look_up
look_up-sum [] m0 = refl
look_up-sum ((k, t) ∷ m1) m0 = elim (Option-cases (find k m0)) [
  | inl e ↦ rw e (omega (arith, look_up-sum m1 m0))
  | inr (s, e) ↦ rw (e, look_up-sum m1 m0) refl
]

look_up-count : (m1 m0 : Shares Bool) → count_valid (look_up (keys m1) m0) ≡ count_shared m1 m0
unfolding look_up count_valid
look_up-count [] m0 = refl
look_up-count ((k, t) ∷ m1) m0 = elim (Option-cases (find k m0)) [
  | inl e ↦ rw e (look_up-count m1 m0 ∙ omega arith)
  | inr (s, e) ↦ rw (e, look_up-count m1 m0) (omega arith)
]

length-look_up : (m1 m0 : Shares Bool) → length (look_up (keys m1) m0) ≡ length (values m1)
unfolding look_up
length-look_up [] m0 = refl
length-look_up ((k, t) ∷ m1) m0 = ap suc (length-look_up m1 m0)

-- When server 0 knows less than half of `total_inputs` among the keys of server 1, `bit_sum` refuses
-- the answer; else it answers, modulo 2 ^ 64, with the number of the keys that both know whose two
-- shares differ.
pub bit_sum_lem :
    (E : Emp) (order : Shares Bool → Shares Bool) (draws : ℕ → ℕ) (total : ℕ)
    (inputs0 inputs1 : Shares Bool)
    → ((j : ℕ) → draws j < u64)
    → (let m0 = collect_shares accept_all inputs0 [] in
        let m1 = order (collect_shares accept_all inputs1 []) in
        bit_sum E order draws total inputs0 inputs1 ≡ (
          if ltb (2 * count_shared m1 m0) total
          then ret_invalid
          else ret_ans (count_ones m1 m0 % u64)))
unfolding bit_sum
bit_sum_lem E order draws total inputs0 inputs1 small =
    let m0 = collect_shares accept_all inputs0 [] in
    let m1 = order (collect_shares accept_all inputs1 []) in
    let sums =
      bitsum_ot-Cong E (look_up (keys m1) m0) (values m1) draws (length-look_up m1 m0) small in
    rw (look_up-count m1 m0, sums.same, look_up-sum m1 m0) refl

module _ (K : Field) where
  open K use {modulus}

  -- The sum over the valid rows at a place.
  abbrev pub valid_sum : List (List ℕ × Bool) → (j : ℕ) → ℕ
  valid_sum [] j = 0
  valid_sum ((row, valid) ∷ rows) j = (if valid then get_or row j 0 else 0) + valid_sum rows j

  abbrev pub valid_rows : List (List ℕ × Bool) → ℕ
  valid_rows [] = 0
  valid_rows ((row, valid) ∷ rows) = bit valid + valid_rows rows

  abbrev pub HaveLength : (n : ℕ) → List (List ℕ × Bool) → Type 0
  HaveLength n [] = Unit {0}
  HaveLength n ((row, valid) ∷ rows) = (length row ≡ n) × HaveLength n rows

  length-accumulate_row :
      (ans row : List ℕ) → length ans ≡ length row → length (accumulate_row K ans row) ≡ length row
  unfolding accumulate_row
  length-accumulate_row [] [] h = refl
  length-accumulate_row [] (x ∷ xs) h = h
  length-accumulate_row (a ∷ ans) [] h = refl
  length-accumulate_row (a ∷ ans) (x ∷ xs) h = ap suc (length-accumulate_row ans xs (omega arith))

  row-Cong :
      (ans row : List ℕ) (j : ℕ)
      → length ans ≡ length row
      → Cong modulus (get_or (accumulate_row K ans row) j 0) (get_or ans j 0 + get_or row j 0)
  unfolding accumulate_row
  row-Cong [] [] j h = cong_of_eq modulus refl
  row-Cong [] (x ∷ xs) j h = absurd (omega arith)
  row-Cong (a ∷ ans) [] j h = absurd (omega arith)
  row-Cong (a ∷ ans) (x ∷ xs) zero h = add_mod-Cong K a x
  row-Cong (a ∷ ans) (x ∷ xs) (suc j) h = row-Cong ans xs j (omega arith)

  loop-Cong :
      (rows : List (List ℕ × Bool)) (n num_valid j : ℕ) (ans : List ℕ)
      → HaveLength n rows
      → length ans ≡ n
      → (let r = accumulate_loop K rows num_valid ans in
          (r.0 ≡ num_valid + valid_rows rows)
          × Cong modulus (get_or r.1 j 0) (get_or ans j 0 + valid_sum rows j))
  unfolding accumulate_loop
  loop-Cong [] n num_valid j ans h l = (omega arith, cong_of_eq modulus (omega arith))
  loop-Cong ((row, true) ∷ rows) n num_valid j ans h l =
      let same = l ∙ sym h.0 in
      let ih =
        loop-Cong rows n (suc num_valid) j (accumulate_row K ans row) h.1
          (length-accumulate_row ans row same ∙ h.0) in
      (
        ih.0 ∙ omega arith,
        ih.1
            ▸ add-Cong (row-Cong ans row j same) (cong_refl modulus (valid_sum rows j))
            ▸ cong_of_eq modulus (omega arith),
      )
  loop-Cong ((row, false) ∷ rows) n num_valid j ans h l =
      let ih = loop-Cong rows n num_valid j ans h.1 l in
      (ih.0 ∙ omega arith, ih.1 ▸ cong_of_eq modulus (omega arith))

  length-zero_array : (n : ℕ) → length (zero_array K n) ≡ n
  length-zero_array zero = refl
  length-zero_array (suc n) = ap suc (length-zero_array n)

  length-loop :
      (rows : List (List ℕ × Bool)) (n num_valid : ℕ) (ans : List ℕ)
      → HaveLength n rows
      → length ans ≡ n
      → length (accumulate_loop K rows num_valid ans).1 ≡ n
  unfolding accumulate_loop
  length-loop [] n num_valid ans h l = l
  length-loop ((row, true) ∷ rows) n num_valid ans h l =
      length-loop rows n (suc num_valid) (accumulate_row K ans row) h.1
        (length-accumulate_row ans row (l ∙ sym h.0) ∙ h.0)
  length-loop ((row, false) ∷ rows) n num_valid ans h l = length-loop rows n num_valid ans h.1 l

  pub length-accumulate :
      (num_values : ℕ) (rows : List (List ℕ × Bool))
      → HaveLength num_values rows
      → length (accumulate K num_values rows).1 ≡ num_values
  unfolding accumulate
  length-accumulate n rows h = length-loop rows n 0 (zero_array K n) h (length-zero_array n)

  get_or-zero_array : (n j : ℕ) → get_or (zero_array K n) j 0 ≡ 0
  get_or-zero_array zero j = refl
  get_or-zero_array (suc n) zero = refl
  get_or-zero_array (suc n) (suc j) = get_or-zero_array n j

  -- For rows of `num_values` shares each, `accumulate` returns the number of the valid rows, and at
  -- each place the sum of the valid rows' shares modulo `Int_Modulus`.
  pub accumulate-Cong :
      (num_values : ℕ) (rows : List (List ℕ × Bool)) (j : ℕ)
      → HaveLength num_values rows
      → (let r = accumulate K num_values rows in
          (r.0 ≡ valid_rows rows) × Cong modulus (get_or r.1 j 0) (valid_sum rows j))
  unfolding accumulate
  accumulate-Cong n rows j h =
      let r = loop-Cong rows n 0 j (zero_array K n) h (length-zero_array n) in
      (r.0 ∙ omega arith, r.1 ▸ cong_of_eq modulus (rw (get_or-zero_array n j) (omega arith)))
