-- ===== src/Server/CountMin.antt =====
-- server.cpp: `countMin_op`, both servers. A client's array has `d` rows of `w` shares. The loop
-- over the values `x` prints those whose estimate reaches a threshold in floating point; the answer
-- here is all the estimates. `fmpz_get_ui` of FLINT is a parameter; an `int` is a word of 32 bits,
-- compared as a signed number.
pub mod Checks
pub mod Estimates
pub mod Sketches
pub mod Answers
use prio_plus.Base.{
  ℕ, zero, suc, ◌+◌, ◌*◌, ◌%◌, ◌^◌, Bool, true, false, List, [], ◌∷◌, map, Option, none, some, ltb,
  ◌-◌, u64, ◌==◌, if◌then◌else◌, xor, bit, length, get_or, table, replicate,
}
use prio_plus.Field.{Field, add_mod}
use prio_plus.Correlated.{◌>>=◌, Store, Supply}
use prio_plus.Hash.{HashLib, HashStore, hash_store, hash_eval}
use prio_plus.Server.{
  Shares, Answer, ret_ans, ret_invalid, error_exit, out_of_bounds, keys, values, collect_shares,
  accept_all,
}
use prio_plus.Server.Aggregate.{max_val_of}
use prio_plus.Server.Freq.{parity_loop, sum_loop, summed_arrays}

-- The places `j * w + k` of an input's array, over `k`.
abbrev pub segment {ℓ} : {A : Type ℓ} (w j : ℕ) (default : A) → List A → List A
segment w j default row = table w (j * w) (λ i. get_or row i default)

-- `parity[j]` after the inputs.
unfoldable pub parity_of : (w j : ℕ) (parity : Bool) → List (List Bool) → Bool
unfolding parity_loop
parity_of w j parity [] = parity
parity_of w j parity (row ∷ rows) = parity_of w j (parity_loop parity (segment w j false row)) rows

-- The first loop of the batch check: what it says of the last `j`.
unfoldable pub parity_check : (total_inputs : ℕ) (all_valid : Bool) → List (Bool × Bool) → Bool
parity_check total_inputs all_valid [] = all_valid
parity_check total_inputs all_valid ((p, p_other) ∷ rest) =
    parity_check total_inputs (bit (xor p p_other) == total_inputs % 2) rest

module _ (K : Field) where
  -- `sums[j]` after the inputs.
  unfoldable pub sum_of : (w j sum : ℕ) → List (List ℕ) → ℕ
  unfolding sum_loop
  sum_of w j sum [] = sum
  sum_of w j sum (row ∷ rows) = sum_of w j (sum_loop K sum (segment w j 0 row)) rows

  -- The second loop, again of the last `j`.
  unfoldable pub sum_check : (total_inputs : ℕ) (all_valid : Bool) → List (ℕ × ℕ) → Bool
  sum_check total_inputs all_valid [] = all_valid
  sum_check total_inputs all_valid ((s, s_other) ∷ rest) =
      sum_check total_inputs (add_mod K s s_other == total_inputs) rest

  -- What the servers take for valid: all inputs or none.
  unfoldable pub sketch_valid :
      (d w total_inputs : ℕ) (known : List Bool) (rows0 rows1 : List (List Bool))
      (shares0 shares1 : List (List ℕ))
      → List Bool
  unfolding parity_of sum_of parity_check sum_check
  sketch_valid d w total_inputs known rows0 rows1 shares0 shares1 =
      let parities : List (Bool × Bool) =
        table d 0 (λ j. (parity_of w j false rows0, parity_of w j false rows1)) in
      let sums : List (ℕ × ℕ) = table d 0 (λ j. (sum_of w j 0 shares0, sum_of w j 0 shares1)) in
      let even = parity_check total_inputs false parities in
      replicate (length known) (if even then sum_check total_inputs true sums else false)

-- `<` on `int`.
abbrev pub int_lt : ℕ → ℕ → Bool
int_lt a b = ltb ((a + 2 ^ 31) % 2 ^ 32) ((b + 2 ^ 31) % 2 ^ 32)

-- The index `base + h` for `int h`: a number of 32 bits of which the highest is the sign, added to a
-- `size_t`.
abbrev pub int_index : (base h : ℕ) → ℕ
int_index base h =
    let low = h % 2 ^ 32 in
    if ltb low (2 ^ 31) then base + low else (base + (u64 - 2 ^ 32) + low) % u64

module _ (K : Field) (L : HashLib) (get_ui : ℕ → ℕ) where
  -- The loop over `j` for one `x`: the least of the counts at its hashes. `rounds` is `d - j`.
  unfoldable pub estimate_loop : (h : HashStore) (a : List ℕ) (w x : ℕ) (rounds j acc : ℕ) → ℕ
  unfolding hash_eval
  estimate_loop h a w x zero j acc = acc
  estimate_loop h a w x (suc rounds) j acc =
      let est = get_ui (get_or a (int_index (j * w) (get_ui (hash_eval K L h j x))) 0) % 2 ^ 32 in
      estimate_loop h a w x rounds (suc j) (if int_lt est acc then est else acc)

  -- The loop over `x`.
  unfoldable pub estimates : (h : HashStore) (num_inputs num_bits : ℕ) → List ℕ → List ℕ
  unfolding estimate_loop
  estimates h num_inputs num_bits a =
      table (if ltb (max_val_of num_bits) 256 then max_val_of num_bits else 256) 0
        (λ x. estimate_loop h a h.w x h.d 0 (num_inputs % 2 ^ 32))

  abbrev pub sketch_answer :
      (h : HashStore) (num_inputs num_bits : ℕ) → Answer (List ℕ) → Answer (List ℕ)
  sketch_answer h num_inputs num_bits (ret_ans a) = ret_ans (estimates h num_inputs num_bits a)
  sketch_answer h num_inputs num_bits ret_invalid = ret_invalid
  sketch_answer h num_inputs num_bits error_exit = error_exit
  sketch_answer h num_inputs num_bits out_of_bounds = out_of_bounds

  unfoldable pub countmin_op :
      (S0 S1 : Supply) (order : Shares (ℕ → Bool) → Shares (ℕ → Bool))
      (d w num_bits total_inputs : ℕ) (inputs0 inputs1 : Shares (ℕ → Bool)) (s0 s1 : Store)
      → Option (Answer (List ℕ) × (Store × Store))
  unfolding summed_arrays sketch_valid collect_shares hash_store estimates
  countmin_op S0 S1 order d w num_bits total_inputs inputs0 inputs1 s0 s1 = do
    let entries = order (collect_shares accept_all inputs1 [])
    (answer, stores) ←
        summed_arrays K S0 S1 (d * w) total_inputs (sketch_valid K d w total_inputs)
          (collect_shares accept_all inputs0 []) entries s0 s1
    some (
      sketch_answer (hash_store L d num_bits w 2) (length (values entries)) num_bits answer,
      stores,
    )
