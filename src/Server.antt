-- ===== src/Server.antt =====
-- server.cpp: the two servers' parts of the operations on the clients' shares. A key `pk` is the
-- number that its 32 bytes spell. A `share_map` is a list of entries. Server 1 goes through its map
-- in an order that the standard library leaves open: `order` gives the entries in that order. What
-- one server sends is a value that the other takes. Below half of `total_inputs`
-- (`INVALID_THRESHOLD` is 0.5) the answer is refused: `num_valid < total_inputs * 0.5`.
pub mod Xor
pub mod Sums
pub mod Collect
pub mod Aggregate
pub mod LinReg
pub mod IntSum
pub mod Freq
pub mod CountMin
use prio_plus.Base.{
  ◌^◌, ℕ, zero, suc, ◌+◌, ◌-◌, ◌*◌, Bool, true, false, List, [], ◌∷◌, ◌++◌, Option, none, some, ltb,
  leb, ◌==◌, if◌then◌else◌, add64, xor_value, length,
}
use prio_plus.Field.{Field, add_mod}
use prio_plus.Ot.{Emp, ot_transfer, bitsum_ot_sender, bitsum_ot_receiver}

-- `messageType` of types.h.
pub data MessageType : Type 0 where
  none_op : MessageType
  bit_sum_type : MessageType
  int_sum_type : MessageType
  and_op : MessageType
  or_op : MessageType
  max_op_type : MessageType
  min_op_type : MessageType
  var_op_type : MessageType
  stddev_op_type : MessageType
  linreg_op_type : MessageType
  freq_op_type : MessageType
  countmin_op_type : MessageType
  heavy_op_type : MessageType

-- What server 0 returns: `RET_ANS` with the answer, `RET_INVALID`, the exit of `error_exit`, or a
-- read out of bounds.
pub data Answer (A : Type 0) : Type 0 where
  ret_ans : A → Answer A
  ret_invalid : Answer A
  error_exit : Answer A
  out_of_bounds : Answer A

abbrev pub Shares : Type 0 → Type 0
Shares V = List (ℕ × V)

-- `^` on `uint64_t`.
abbrev pub xor64 : ℕ → ℕ → ℕ
xor64 a b = xor_value 64 a b

abbrev pub find : {V : Type 0} → ℕ → Shares V → Option V
find k [] = none
find k ((pk, v) ∷ m) = let rest = find k m in if k == pk then some v else rest

abbrev pub is_found : {V : Type 0} → Option V → Bool
is_found none = false
is_found (some v) = true

-- A test of whether a key was found.
abbrev pub on_found : {V B : Type 0} → Option V → B → (V → B) → B
on_found none absent present = absent
on_found (some v) absent present = present v

abbrev pub keys : {V : Type 0} → Shares V → List ℕ
keys [] = []
keys ((k, v) ∷ m) = k ∷ keys m

abbrev pub values : {V : Type 0} → Shares V → List V
values [] = []
values ((k, v) ∷ m) = v ∷ values m

-- The loop that receives the shares; `accept` is the test of the share's values.
unfoldable pub collect_shares : {V : Type 0} (accept : V → Bool) → Shares V → Shares V → Shares V
collect_shares accept [] m = m
collect_shares accept ((pk, v) ∷ rest) m =
    collect_shares accept rest
      (if is_found (find pk m) then m else (if accept v then m ++ (pk, v) ∷ [] else m))

abbrev pub accept_all : {V : Type 0} → V → Bool
accept_all v = true

-- The entries of server 0 for the keys it is sent: a share and whether the key is known. The share
-- of an unknown key is not set, nor read.
unfoldable pub look_up : List ℕ → Shares Bool → List (Bool × Bool)
look_up [] m = []
look_up (k ∷ ks) m = on_found (find k m) (false, false) (λ v. (v, true)) ∷ look_up ks m

unfoldable pub count_valid : List (Bool × Bool) → ℕ
count_valid [] = 0
count_valid ((v, valid) ∷ rest) = if valid then suc (count_valid rest) else count_valid rest

-- `bit_sum`, server 0 with what it gets from server 1.
unfoldable pub bit_sum :
    (E : Emp) (order : Shares Bool → Shares Bool) (draws : ℕ → ℕ) (total_inputs : ℕ)
    (inputs0 inputs1 : Shares Bool)
    → Answer ℕ
unfolding collect_shares look_up count_valid
bit_sum E order draws total_inputs inputs0 inputs1 =
    let entries = order (collect_shares accept_all inputs1 []) in
    let shares = look_up (keys entries) (collect_shares accept_all inputs0 []) in
    let out = bitsum_ot_sender shares 0 draws in
    let b = bitsum_ot_receiver (ot_transfer E out.b0 out.b1 (values entries)) 0 in
    if ltb (2 * count_valid shares) total_inputs then ret_invalid else ret_ans (add64 out.result b)

-- The loop of server 0 in `xor_op` and `max_op` over the keys it is sent: `num_valid`, `a` and
-- `valid`.
unfoldable pub known_loop :
    {V A : Type 0} (combine : A → V → A)
    → List ℕ
    → Shares V
    → (num_valid : ℕ) → A
    → (ℕ × A) × List Bool
known_loop combine [] m num_valid a = ((num_valid, a), [])
known_loop combine (k ∷ ks) m num_valid a =
    let found = find k m in
    let r =
      known_loop combine ks m (on_found found num_valid (λ v. suc num_valid))
        (on_found found a (combine a)) in
    (r.0, is_found found ∷ r.1)

-- The loop of server 1 over its keys and `other_valid`; `get` is `share_map[...]`.
unfoldable pub valid_loop :
    {V A : Type 0} (combine : A → V → A) → List ℕ → List Bool → (get : ℕ → V) → A → A
valid_loop combine (k ∷ ks) (v ∷ vs) get b =
    valid_loop combine ks vs get (if v then combine b (get k) else b)
valid_loop combine _ _ get b = b

-- `operator[]` of a map: a missing value is the default one.
abbrev pub get_in : {V : Type 0} → V → Shares V → ℕ → V
get_in default m k = on_found (find k m) default (λ v. v)

-- The end of `xor_op`.
unfoldable pub xor_answer : MessageType → (aggr : ℕ) → Answer Bool
xor_answer and_op aggr = ret_ans (aggr == 0)
xor_answer or_op aggr = ret_ans (if aggr == 0 then false else true)
xor_answer _ aggr = error_exit

unfoldable pub xor_op :
    MessageType
    → (order : Shares ℕ → Shares ℕ) (total_inputs : ℕ) (inputs0 inputs1 : Shares ℕ) → Answer Bool
unfolding collect_shares known_loop valid_loop xor_answer
xor_op type order total_inputs inputs0 inputs1 =
    let m1 = collect_shares accept_all inputs1 [] in
    let ks = keys (order m1) in
    let ((num_valid, a), valid) = known_loop xor64 ks (collect_shares accept_all inputs0 []) 0 0 in
    let b = valid_loop xor64 ks valid (get_in 0 m1) 0 in
    if ltb (2 * num_valid) total_inputs then ret_invalid else xor_answer type (xor64 a b)

-- The loop over `j` that adds an array of `max_inp + 1` words to another by `^=`.
abbrev pub xor_array : (max_inp : ℕ) → (ℕ → ℕ) → (ℕ → ℕ) → ℕ → ℕ
xor_array max_inp a v j = if leb j max_inp then xor64 (a j) (v j) else a j

-- The last loop of `max_op`. Its `j` is unsigned: after 0 comes 2 ^ 32 - 1, out of the arrays.
unfoldable pub max_loop : ℕ → (a b : ℕ → ℕ) → Option ℕ
max_loop zero a b = if a 0 == b 0 then none else some 0
max_loop (suc j) a b =
    let rest = max_loop j a b in if a (suc j) == b (suc j) then rest else some (suc j)

unfoldable pub max_answer : MessageType → (max_inp : ℕ) → Option ℕ → Answer ℕ
max_answer type max_inp none = out_of_bounds
max_answer max_op_type max_inp (some j) = ret_ans j
max_answer min_op_type max_inp (some j) = ret_ans (max_inp - j)
max_answer _ max_inp (some j) = error_exit

-- `total_inputs` and `B` are 32-bit words. When the size of `shares` does not fit one, the last row
-- before the index wraps around reaches past the end of the array that is allocated.
unfoldable pub max_op :
    MessageType
    → (order : Shares (ℕ → ℕ) → Shares (ℕ → ℕ)) (total_inputs max_inp : ℕ)
      (inputs0 inputs1 : Shares (ℕ → ℕ))
    → Answer ℕ
unfolding collect_shares known_loop valid_loop max_loop max_answer
max_op type order total_inputs max_inp inputs0 inputs1 =
    let m1 = collect_shares accept_all inputs1 [] in
    let ks = keys (order m1) in
    let ((num_valid, a), valid) =
      known_loop (xor_array max_inp) ks (collect_shares accept_all inputs0 []) 0 (λ j. 0) in
    let b = valid_loop (xor_array max_inp) ks valid (get_in (λ j. 0) m1) (λ j. 0) in
    if leb (2 ^ 32) (total_inputs * (max_inp + 1))
    then out_of_bounds
    else if ltb (2 * num_valid) total_inputs
    then ret_invalid
    else max_answer type max_inp (max_loop max_inp a b)

module _ (K : Field) where
  -- The inner loop of `accumulate` over `j`: the row `i` is added to the sums.
  unfoldable pub accumulate_row : (ans row : List ℕ) → List ℕ
  accumulate_row (a ∷ ans) (x ∷ xs) = add_mod K a x ∷ accumulate_row ans xs
  accumulate_row _ _ = []

  -- The outer loop, over the rows of `shares_p` and `valid`; it returns `num_valid` and `ans`.
  unfoldable pub accumulate_loop : List (List ℕ × Bool) → (num_valid : ℕ) → List ℕ → ℕ × List ℕ
  unfolding accumulate_row
  accumulate_loop [] num_valid ans = (num_valid, ans)
  accumulate_loop ((row, valid) ∷ rest) num_valid ans =
      if valid
      then accumulate_loop rest (suc num_valid) (accumulate_row ans row)
      else accumulate_loop rest num_valid ans

  abbrev pub zero_array : ℕ → List ℕ
  zero_array zero = []
  zero_array (suc n) = 0 ∷ zero_array n

  unfoldable pub accumulate : (num_values : ℕ) → List (List ℕ × Bool) → ℕ × List ℕ
  unfolding accumulate_loop
  accumulate num_values rows = accumulate_loop rows 0 (zero_array num_values)
