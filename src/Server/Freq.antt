-- ===== src/Server/Freq.antt =====
-- server.cpp: `freq_op`, both servers. A client's array of shares is a function of the index, of
-- which the first `max_inp` values are read. `unset` is what server 1's new array `valid` holds, which
-- it sends before it sets it. What server 0 prints, the frequencies, is the answer.
pub mod Rows
pub mod Counts
pub mod Sums
pub mod Answers
pub mod Honest
use prio_plus.Base.{
  leb, ◌^◌, ℕ, zero, suc, ◌+◌, ◌*◌, ◌%◌, Bool, true, false, List, [], ◌∷◌, map, Option, none, some,
  ltb, ◌==◌, if◌then◌else◌, ◌&&◌, xor, bit, length, u64, table, replicate,
}
use prio_plus.Field.{Field, add_mod}
use prio_plus.Correlated.{◌>>=◌, Store, Supply, check_dabits, b2a_dabit_single}
use prio_plus.Correlated.OtConversion.{flatten}
use prio_plus.Server.{
  Shares, Answer, ret_ans, ret_invalid, keys, values, collect_shares, accept_all, accumulate,
}
use prio_plus.Server.Aggregate.{
  read_rows, find_shares, known_bits, known_shares, with_valid, add_arrays, max_val_of,
}

-- `total_parity ^= shares[...]`, over an array.
unfoldable pub parity_loop : (parity : Bool) → List Bool → Bool
parity_loop parity [] = parity
parity_loop parity (b ∷ bs) = parity_loop (xor parity b) bs

-- `parity[i]`, and server 0's `total_parity`.
unfoldable pub row_parities : List (List Bool) → List Bool
unfolding parity_loop
row_parities = map (parity_loop false)

module _ (K : Field) where
  -- `sums[i]`, and `sum`.
  unfoldable pub sum_loop : (sum : ℕ) → List ℕ → ℕ
  sum_loop sum [] = sum
  sum_loop sum (x ∷ xs) = sum_loop (add_mod K sum x) xs

  unfoldable pub row_sums : List (List ℕ) → List ℕ
  unfolding sum_loop
  row_sums = map (sum_loop 0)

  -- The batch check of server 0.
  unfoldable pub batch_check :
      (total_inputs : ℕ) (total_parity total_parity_other : Bool) (sum sum_other : ℕ) → Bool
  batch_check total_inputs total_parity total_parity_other sum sum_other =
      (bit (xor total_parity total_parity_other) == total_inputs % 2)
      && (add_mod K sum sum_other == total_inputs)

  -- The check of the inputs one by one, from input `i` on.
  unfoldable pub single_checks :
      (i : ℕ) (valid parity : List Bool) (parity_other : ℕ → Bool) (sums sums_other : List ℕ)
      → List Bool
  single_checks i (v ∷ valid) (p ∷ parity) parity_other (a ∷ sums) (b ∷ sums_other) =
      (v && xor p (parity_other i) && (add_mod K a b == 1))
      ∷ single_checks (suc i) valid parity parity_other sums sums_other
  single_checks i _ _ parity_other _ _ = []

  -- What the servers take for valid.
  unfoldable pub freq_valid :
      (total_inputs : ℕ) (known : List Bool) (unset : ℕ → Bool) (rows0 rows1 : List (List Bool))
      (shares0 shares1 : List (List ℕ))
      → List Bool
  unfolding parity_loop row_parities sum_loop row_sums batch_check single_checks flatten
  freq_valid total_inputs known unset rows0 rows1 shares0 shares1 =
      let parity = row_parities rows0 in
      let sums0 = row_sums shares0 in
      let sums1 = row_sums shares1 in
      if batch_check total_inputs (parity_loop false parity) (parity_loop false (flatten rows1))
        (sum_loop 0 sums0) (sum_loop 0 sums1)
      then replicate (length known) true
      else single_checks 0 known parity unset sums0 sums1

  -- The course of `freq_op` and `countMin_op` after the shares are received, for arrays of `width`
  -- shares; `validate` sets `valid`, from the shares before and after the conversion.
  unfoldable pub summed_arrays :
      (S0 S1 : Supply) (width total_inputs : ℕ)
      (validate : (known : List Bool) (rows0 rows1 : List (List Bool))
          (shares0 shares1 : List (List ℕ))
        → List Bool)
      (m0 entries : Shares (ℕ → Bool)) (s0 s1 : Store)
      → Option (Answer (List ℕ) × (Store × Store))
  unfolding check_dabits b2a_dabit_single read_rows find_shares accumulate flatten
  summed_arrays S0 S1 width total_inputs validate m0 entries s0 s1 = do
    let subs0 = find_shares (keys entries) m0 (λ j. false)
    let rows0 = map (table width 0) (known_shares subs0)
    let rows1 = map (table width 0) (values entries)
    let n = length rows1
    let dabits = total_inputs * width % u64
    ((p0, p1), (s0', s1')) ←
        b2a_dabit_single K S0 S1 (flatten rows0) (flatten rows1) (check_dabits K S0 dabits s0)
          (check_dabits K S1 dabits s1)
    shares0 ← read_rows n width p0
    shares1 ← read_rows n width p1
    let valid = validate (known_bits subs0) rows0 rows1 shares0 shares1
    let (num_valid, a) = accumulate K width (with_valid shares0 valid)
    let (_, b) = accumulate K width (with_valid shares1 valid)
    some (
      if ltb (2 * num_valid) total_inputs then ret_invalid else ret_ans (add_arrays K a b),
      (s0', s1'),
    )

  -- `total_inputs` is a 32-bit word. `none`: the loops over the values, whose counter is a 32-bit word
  -- too, do not end for 2 ^ 32 values or more.
  unfoldable pub freq_op :
      (S0 S1 : Supply) (order : Shares (ℕ → Bool) → Shares (ℕ → Bool)) (num_bits total_inputs : ℕ)
      (unset : ℕ → Bool) (inputs0 inputs1 : Shares (ℕ → Bool)) (s0 s1 : Store)
      → Option (Answer (List ℕ) × (Store × Store))
  unfolding summed_arrays freq_valid collect_shares
  freq_op S0 S1 order num_bits total_inputs unset inputs0 inputs1 s0 s1 =
      if leb (2 ^ 32) (max_val_of num_bits)
      then none
      else summed_arrays S0 S1 (max_val_of num_bits) total_inputs
          (λ known. freq_valid total_inputs known unset) (collect_shares accept_all inputs0 [])
          (order (collect_shares accept_all inputs1 [])) s0 s1
