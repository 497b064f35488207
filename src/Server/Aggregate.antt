-- ===== src/Server/Aggregate.antt =====
-- server.cpp: `share_convert`, and the operations that convert the clients' integers before they sum
-- them: `int_sum`, `var_op` and `linreg_op`. `USE_OT_B2A` is true, so that the other branch of
-- `share_convert` is dead. A flat array is a list; a read past its end gives no result. `var_op`
-- and `linreg_op` do the same with other fields: `checked_sums` is that common course, and its
-- answer is what the floating-point ends of the two are computed from.
pub mod Rows
pub mod Lengths
pub mod Judged
pub mod Totals
pub mod Operations
pub mod Empty
use prio_plus.Base.{
  ℕ, zero, suc, ◌+◌, ◌-◌, ◌*◌, ◌/◌, ◌%◌, ◌^◌, Bool, true, false, List, [], ◌∷◌, ◌++◌, map, Option,
  none, some, ltb, leb, ◌==◌, if◌then◌else◌, ◌&&◌, length, u64, get_or,
}
use prio_plus.Field.{Field, add_mod}
use prio_plus.Share.{ClientPacket, client_packet}
use prio_plus.Circuit.{Circuit, num_mul_gates, check_var, check_lin_reg}
use prio_plus.Ot.{Emp}
use prio_plus.Correlated.{◌>>=◌}
use prio_plus.Correlated.OtConversion.{b2a_ot, flatten}
use prio_plus.Snips.{CheckerPreComp, validate_snips}
use prio_plus.Server.{
  Shares, Answer, ret_ans, ret_invalid, error_exit, out_of_bounds, find, on_found, is_found, keys,
  values, collect_shares, accumulate,
}

-- The next `num_values` entries of a flat array, and what is left.
unfoldable pub read_row : (num_values : ℕ) → List ℕ → Option (List ℕ × List ℕ)
read_row zero xs = some ([], xs)
read_row (suc n) [] = none
read_row (suc n) (x ∷ xs) = do (row, rest) ← read_row n xs; some (x ∷ row, rest)

-- A flat array of `num_shares * num_values` entries by rows.
unfoldable pub read_rows : (num_shares num_values : ℕ) → List ℕ → Option (List (List ℕ))
unfolding read_row
read_rows zero num_values xs = some []
read_rows (suc n) num_values xs = do
  (row, rest) ← read_row num_values xs
  rows ← read_rows n num_values rest
  some (row ∷ rows)

module _ (K : Field) (E : Emp) where
  -- The two servers' calls of `share_convert`; there are as many values as numbers of bits.
  unfoldable pub share_convert :
      (num_bits : List ℕ) (draws : ℕ → ℕ) (num_shares : ℕ) (shares0 shares1 : List ℕ)
      → Option (List ℕ × List ℕ)
  unfolding read_rows b2a_ot
  share_convert num_bits draws num_shares shares0 shares1 = do
    rows0 ← read_rows num_shares (length num_bits) shares0
    rows1 ← read_rows num_shares (length num_bits) shares1
    some (b2a_ot E num_bits rows0 rows1 K.modulus draws)

-- The loop of server 0 over the keys it is sent: the share, or `absent` for an unknown key, and
-- `valid`.
unfoldable pub find_shares : {V : Type 0} → List ℕ → Shares V → (absent : V) → List (V × Bool)
find_shares [] m absent = []
find_shares (k ∷ ks) m absent =
    (on_found (find k m) absent (λ v. v), is_found (find k m)) ∷ find_shares ks m absent

abbrev pub known_bits : {V : Type 0} → List (V × Bool) → List Bool
known_bits [] = []
known_bits ((v, known) ∷ rest) = known ∷ known_bits rest

abbrev pub known_shares : {V : Type 0} → List (V × Bool) → List V
known_shares [] = []
known_shares ((v, known) ∷ rest) = v ∷ known_shares rest

-- `valid[i] &= snip_valid[i]`.
abbrev pub and_bits : List Bool → List Bool → List Bool
and_bits (a ∷ xs) (b ∷ ys) = (a && b) ∷ and_bits xs ys
and_bits _ _ = []

-- The rows of `shares_p`, each with its validity.
abbrev pub with_valid : List (List ℕ) → List Bool → List (List ℕ × Bool)
with_valid (row ∷ rows) (v ∷ vs) = (row, v) ∷ with_valid rows vs
with_valid _ _ = []

abbrev pub row_at : List ℕ → ℕ → ℕ
row_at row j = get_or row j 0

module _ {V : Type 0} (fields : V → List ℕ) (packet : V → ClientPacket) where
  -- What `validate_snips` is given: for each input the two packets, the two rows of shares, and the
  -- draws of the synchronised seed.
  abbrev pub snip_batch :
      (i : ℕ) (snip_draws : ℕ → ℕ → ℕ)
      → List (V × Bool)
      → List V
      → (rows0 rows1 : List (List ℕ))
      → List (ClientPacket × ClientPacket × (ℕ → ℕ) × (ℕ → ℕ) × (ℕ → ℕ))
  snip_batch i snip_draws ((v0, known) ∷ subs0) (v1 ∷ subs1) (r0 ∷ rows0) (r1 ∷ rows1) =
      (packet v0, packet v1, row_at r0, row_at r1, snip_draws i)
      ∷ snip_batch (suc i) snip_draws subs0 subs1 rows0 rows1
  snip_batch i snip_draws _ _ _ _ = []

-- The loop that adds the other server's sums.
abbrev pub add_arrays : (K : Field) → List ℕ → List ℕ → List ℕ
add_arrays K (b ∷ bs) (a ∷ xs) = add_mod K b a ∷ add_arrays K bs xs
add_arrays K _ _ = []

-- `none` is a read out of bounds.
abbrev pub or_out_of_bounds : {A : Type 0} → Option (Answer A) → Answer A
or_out_of_bounds none = out_of_bounds
or_out_of_bounds (some a) = a

-- The end of the operations: the threshold, and the sum of the two servers' sums.
abbrev pub final_sums :
    (K : Field) (total_inputs num_valid : ℕ) (a b : List ℕ) → Answer (ℕ × List ℕ)
final_sums K total_inputs num_valid a b =
    if ltb (2 * num_valid) total_inputs then ret_invalid else ret_ans (num_valid, add_arrays K b a)

module _ (K : Field) (E : Emp) where
  -- The course of `var_op` and `linreg_op` after the shares are received, on both servers; the
  -- answer is `num_valid` and the sums of the fields.
  unfoldable pub checked_sums :
      {V : Type 0} (fields : V → List ℕ) (packet : V → ClientPacket) (absent : V) (ckt : Circuit)
      (num_bits : List ℕ) (pre : CheckerPreComp) (draws : ℕ → ℕ) (snip_draws : ℕ → ℕ → ℕ)
      (total_inputs : ℕ) (m0 entries : Shares V)
      → Option (Answer (ℕ × List ℕ))
  unfolding share_convert read_rows find_shares flatten validate_snips accumulate
  checked_sums fields packet absent ckt num_bits pre draws snip_draws total_inputs m0 entries = do
    let subs0 = find_shares (keys entries) m0 absent
    let subs1 = values entries
    let n = length subs1
    (shares0, shares1) ←
        share_convert K E num_bits draws n (flatten (map fields (known_shares subs0)))
          (flatten (map fields subs1))
    rows0 ← read_rows n (length num_bits) shares0
    rows1 ← read_rows n (length num_bits) shares1
    snip_valid ←
        validate_snips K ckt pre (snip_batch fields packet 0 snip_draws subs0 subs1 rows0 rows1)
    let valid = and_bits (known_bits subs0) snip_valid
    let (num_valid, a) = accumulate K (length num_bits) (with_valid rows0 valid)
    let (_, b) = accumulate K (length num_bits) (with_valid rows1 valid)
    some (final_sums K total_inputs num_valid a b)

-- `VarShare`, with the packet that follows it.
pub record VarShare : Type 0 where
  pub val : ℕ
  pub val_squared : ℕ
  pub packet : ClientPacket

abbrev pub var_fields : VarShare → List ℕ
var_fields s = s.val ∷ s.val_squared ∷ []

-- `1ULL << num_bits`, and its square.
abbrev pub max_val_of : ℕ → ℕ
max_val_of num_bits = 2 ^ num_bits % u64

abbrev pub max_square_of : ℕ → ℕ
max_square_of num_bits = max_val_of num_bits * max_val_of num_bits % u64

unfoldable pub accept_var : (num_bits : ℕ) → VarShare → Bool
accept_var num_bits s =
    ltb s.val (max_val_of num_bits) && ltb s.val_squared (max_square_of num_bits)

module _ (K : Field) (E : Emp) where
  unfoldable pub var_op :
      (order : Shares VarShare → Shares VarShare) (num_bits : ℕ) (pre : CheckerPreComp)
      (draws : ℕ → ℕ) (snip_draws : ℕ → ℕ → ℕ) (total_inputs : ℕ)
      (inputs0 inputs1 : Shares VarShare)
      → Answer (ℕ × List ℕ)
  unfolding checked_sums collect_shares check_var client_packet num_mul_gates accept_var
  var_op order num_bits pre draws snip_draws total_inputs inputs0 inputs1 = or_out_of_bounds do
    mock ← client_packet (num_mul_gates (check_var K))
    checked_sums K E var_fields (λ s. s.packet) (record { val = 0; val_squared = 0; packet = mock })
        (check_var K) (num_bits ∷ num_bits * 2 ∷ []) pre draws snip_draws total_inputs
        (collect_shares (accept_var num_bits) inputs0 [])
        (order (collect_shares (accept_var num_bits) inputs1 []))
