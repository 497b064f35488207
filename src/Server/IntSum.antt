-- ===== src/Server/IntSum.antt =====
-- server.cpp: `int_sum`. Its `nvalues` is 10000, while it has one value for each share. `absent` is
-- what stands in `shares` at an unknown key, which is not set; `fmpz_get_ui` of FLINT is a parameter.
-- A failed `assert` is an exit.
use prio_plus.Base.{
  ℕ, suc, ◌*◌, ◌<◌, ◌≡◌, refl, ap, sym, ◌∙◌, Bool, List, [], ◌∷◌, Option, none, some, ltb, ◌==◌,
  if◌then◌else◌, length, get_or, replicate, length-replicate, arith,
}
use mathlib.Core.Option.{none-ne-some}
use prio_plus.Field.{Field}
use prio_plus.Ot.{Emp}
use prio_plus.Correlated.{◌>>=◌}
use prio_plus.Server.{
  Shares, Answer, ret_ans, ret_invalid, error_exit, out_of_bounds, find, keys, values,
  collect_shares, accumulate,
}
use prio_plus.Server.Collect.{first_accepted, collect_shares-find}
use prio_plus.Server.Aggregate.{
  share_convert, read_rows, find_shares, known_bits, known_shares, with_valid, final_sums,
  or_out_of_bounds, max_val_of,
}
use prio_plus.Server.Aggregate.Rows.{read_rows-short}

unfoldable pub accept_int : (num_bits val : ℕ) → Bool
accept_int num_bits val = ltb val (max_val_of num_bits)

abbrev pub nvalues : ℕ
nvalues = 10000

-- `ans` from the sum of the two servers' sums.
abbrev pub int_answer : (get_ui : ℕ → ℕ) → Answer (ℕ × List ℕ) → Answer ℕ
int_answer get_ui (ret_ans (num_valid, b)) = ret_ans (get_ui (get_or b 0 0))
int_answer get_ui ret_invalid = ret_invalid
int_answer get_ui error_exit = error_exit
int_answer get_ui out_of_bounds = out_of_bounds

module _ (K : Field) (E : Emp) (get_ui : ℕ → ℕ) where
  -- The course after the shares are received, on both servers.
  unfoldable pub int_sums :
      (nbits : List ℕ) (absent : ℕ) (draws : ℕ → ℕ) (total_inputs : ℕ) (m0 entries : Shares ℕ)
      → Option (Answer ℕ)
  unfolding share_convert read_rows find_shares accumulate
  int_sums nbits absent draws total_inputs m0 entries = do
    let subs0 = find_shares (keys entries) m0 absent
    let n = length (values entries)
    (shares0, shares1) ← share_convert K E nbits draws n (known_shares subs0) (values entries)
    rows0 ← read_rows n 1 shares0
    rows1 ← read_rows n 1 shares1
    let (num_valid, a) = accumulate K 1 (with_valid rows0 (known_bits subs0))
    let (_, b) = accumulate K 1 (with_valid rows1 (known_bits subs0))
    some (int_answer get_ui (final_sums K total_inputs num_valid a b))

  unfoldable pub int_sum :
      (order : Shares ℕ → Shares ℕ) (num_bits absent : ℕ) (draws : ℕ → ℕ) (total_inputs : ℕ)
      (inputs0 inputs1 : Shares ℕ)
      → Answer ℕ
  unfolding int_sums collect_shares accept_int
  int_sum order num_bits absent draws total_inputs inputs0 inputs1 =
      if num_bits == 63
      then or_out_of_bounds (
          int_sums (replicate nvalues num_bits) absent draws total_inputs
            (collect_shares (accept_int num_bits) inputs0 [])
            (order (collect_shares (accept_int num_bits) inputs1 [])))
      else error_exit

length-find :
    (ks : List ℕ) (m : Shares ℕ) (absent : ℕ)
    → length (known_shares (find_shares ks m absent)) ≡ length ks
unfolding find_shares
length-find [] m absent = refl
length-find (k ∷ ks) m absent = ap suc (length-find ks m absent)

length-keys : (m : Shares ℕ) → (length (keys m) ≡ length m) × (length (values m) ≡ length m)
length-keys [] = (refl, refl)
length-keys ((k, v) ∷ m) = let ih = length-keys m in (ap suc ih.0, ap suc ih.1)

more_values : (n k : ℕ) → 0 < n → 1 < k → n < n * k
more_values n k pos many = grind arith

module _ (K : Field) (E : Emp) (get_ui : ℕ → ℕ) where
  -- With more than one value for each of the shares, their array ends too early.
  int_sums-none :
      (nbits : List ℕ) (absent : ℕ) (draws : ℕ → ℕ) (total : ℕ) (m0 entries : Shares ℕ)
      → 1 < length nbits
      → 0 < length entries
      → int_sums K E get_ui nbits absent draws total m0 entries ≡ none
  unfolding int_sums share_convert
  int_sums-none nbits absent draws total m0 entries many pos =
      let n = length (values entries) in
      let (of_keys, of_values) = length-keys entries in
      let same = length-find (keys entries) m0 absent ∙ of_keys ∙ sym of_values in
      let short : length (known_shares (find_shares (keys entries) m0 absent)) < n * length nbits =
        let more = more_values n (length nbits) (omega (arith, of_values, pos)) many in
        omega (arith, same, more) in
      rw (read_rows-short n (length nbits) _ short) refl

found-entry : (k : ℕ) (m : Shares ℕ) (v : ℕ) → find k m ≡ some v → 0 < length m
found-entry k [] v h = absurd (none-ne-some v h)
found-entry k (e ∷ m) v h = omega arith

-- As soon as server 1 accepts a share, `int_sum` has no answer: it exits when `num_bits` is not 63,
-- and else reads past the end of its shares. `order` lists all of server 1's entries.
pub int_sum-out_of_bounds :
    (K : Field) (E : Emp) (get_ui : ℕ → ℕ) (order : Shares ℕ → Shares ℕ) (num_bits absent : ℕ)
    (draws : ℕ → ℕ) (total k v : ℕ) (inputs0 inputs1 : Shares ℕ)
    → ((m : Shares ℕ) → length (order m) ≡ length m)
    → first_accepted (accept_int num_bits) k inputs1 ≡ some v
    → int_sum K E get_ui order num_bits absent draws total inputs0 inputs1
      ≡ (if num_bits == 63 then out_of_bounds else error_exit)
unfolding int_sum
int_sum-out_of_bounds K E get_ui order num_bits absent draws total k v inputs0 inputs1 whole found =
    let m1 = collect_shares (accept_int num_bits) inputs1 [] in
    let entry = found-entry k m1 v (collect_shares-find (accept_int num_bits) k inputs1 ∙ found) in
    let bits = length-replicate nvalues num_bits in
    let pos : 0 < length (order m1) = omega (arith, whole m1, entry) in
    let none_lem =
      int_sums-none K E get_ui (replicate nvalues num_bits) absent draws total
        (collect_shares (accept_int num_bits) inputs0 []) (order m1) (omega (arith, bits)) pos in
    rw none_lem refl
