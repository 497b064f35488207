-- ===== src/Ot.antt =====
-- ot.h and ot.cpp: sums of bits and of integers, and multiplication triples of bits, by oblivious
-- transfer. Arrays that the loops fill and read in order are lists; `idx` counts the transfers.
pub mod BitSum
pub mod IntSum
pub mod BoolTriples
pub mod LazyTriples
use prio_plus.Base.{
  ℕ, zero, suc, ◌+◌, ◌-◌, ◌*◌, ◌/◌, ◌%◌, ◌^◌, ◌≡◌, Bool, true, false, not, List, [], ◌∷◌, ◌++◌, map,
  ◌==◌, xor, ◌&&◌, bit, length, if◌then◌else◌, u64, add64, sub64, mul64,
}
use prio_plus.Field.{Field, sub_mod}
use prio_plus.Share.{BooleanBeaverTriple, BeaverTriple}

-- What a 1-out-of-2 oblivious transfer gives its receiver.
abbrev pub choose {ℓ} : {A : Type ℓ} → List A → List A → List Bool → List A
choose (x ∷ xs) (y ∷ ys) (b ∷ bs) = (if b then y else x) ∷ choose xs ys bs
choose _ _ _ = []

-- The emp library (emp-tool, emp-ot) is not part of the repository: its blocks of 128 bits, and
-- the transfer of blocks that `IKNP::send` on one side and `IKNP::recv` on the other make.
pub record Emp : Type 1 where
  pub Block : Type 0
  pub make_block : (high low : ℕ) → Block
  pub low_word : Block → ℕ
  pub transfer : List Block → List Block → List Bool → List Block
  pub low_word_lem : (high low : ℕ) → low_word (make_block high low) ≡ low
  pub transfer_lem : (xs ys : List Block) (bs : List Bool) → transfer xs ys bs ≡ choose xs ys bs

module _ (E : Emp) where
  -- What `OT_Wrapper::send` hands to the transfer.
  unfoldable pub ot_blocks : List ℕ → List E.Block
  ot_blocks = map λ d. E.make_block 0 d

  -- `OT_Wrapper::send` on one side and `OT_Wrapper::recv` on the other: what the latter stores.
  unfoldable pub ot_transfer : (data0 data1 : List ℕ) → List Bool → List ℕ
  unfolding ot_blocks
  ot_transfer data0 data1 b = map E.low_word (E.transfer (ot_blocks data0) (ot_blocks data1) b)

-- `mod == 0` stands for 2 ^ 64.
abbrev pub max_word : ℕ → ℕ
max_word m = if m == 0 then u64 - 1 else m - 1

abbrev pub reduce : ℕ → ℕ → ℕ
reduce m x = if m == 0 then x else x % m

pub record Sender (R : Type 0) : Type 0 where
  pub b0 : List ℕ
  pub b1 : List ℕ
  pub result : R

-- The loop of `bitsum_ot_sender`: pairs of a share and its validity, with a random word for each
-- place. The result is `sum`.
unfoldable pub bitsum_sender_loop :
    List (Bool × Bool) → (m : ℕ) (draws : ℕ → ℕ) (i sum : ℕ) → Sender ℕ
bitsum_sender_loop [] m draws i sum = record { b0 = []; b1 = []; result = sum }
bitsum_sender_loop ((share, valid) ∷ rest) m draws i sum =
    let b0 = reduce m (draws i) in
    let b1 = sub64 (add64 b0 1) (2 * bit share) in
    let sum' = reduce m (add64 sum (add64 (add64 (sub64 (max_word m) b0) 1) (bit share))) in
    let out = bitsum_sender_loop rest m draws (suc i) (if valid then sum' else sum) in
    record {
      b0 = (if valid then b0 else 0) ∷ out.b0;
      b1 = (if valid then b1 else 0) ∷ out.b1;
      result = out.result;
    }

unfoldable pub bitsum_ot_sender : List (Bool × Bool) → (m : ℕ) (draws : ℕ → ℕ) → Sender ℕ
unfolding bitsum_sender_loop
bitsum_ot_sender shares m draws = bitsum_sender_loop shares m draws 0 0

-- The loop of `bitsum_ot_receiver` over what was received.
unfoldable pub bitsum_receiver_loop : List ℕ → (m sum : ℕ) → ℕ
bitsum_receiver_loop [] m sum = sum
bitsum_receiver_loop (r ∷ rs) m sum = bitsum_receiver_loop rs m (reduce m (add64 sum r))

unfoldable pub bitsum_ot_receiver : List ℕ → (m : ℕ) → ℕ
unfolding bitsum_receiver_loop
bitsum_ot_receiver r m = bitsum_receiver_loop r m 0

-- The loop over `k` of `intsum_ot_sender`, for one value of a valid share: `num` is what is left
-- of the value, and `ret` is `ret[i][j]`.
unfoldable pub intsum_sender_bits : (rounds k num ret idx m : ℕ) (draws : ℕ → ℕ) → Sender ℕ
intsum_sender_bits zero k num ret idx m draws = record { b0 = []; b1 = []; result = ret }
intsum_sender_bits (suc rounds) k num ret idx m draws =
    let bool_share = num % 2 in
    let pow = 2 ^ k % u64 in
    let minus_pow = add64 (sub64 (max_word m) pow) 1 in
    let b0 = reduce m (draws idx) in
    let minus_b0 = add64 (sub64 (max_word m) b0) 1 in
    let b1 = reduce m (add64 b0 (if bool_share == 0 then pow else minus_pow)) in
    let ret' = reduce m (add64 ret (add64 (mul64 bool_share pow) minus_b0)) in
    let out = intsum_sender_bits rounds (suc k) (num / 2) ret' (suc idx) m draws in
    record { b0 = b0 ∷ out.b0; b1 = b1 ∷ out.b1; result = out.result }

unfoldable pub zeros : ℕ → List ℕ
zeros zero = []
zeros (suc n) = 0 ∷ zeros n

-- One value of a share: the words of a share that is not valid are zero.
unfoldable pub intsum_sender_value :
    (valid : Bool) (value num_bits idx m : ℕ) (draws : ℕ → ℕ) → Sender ℕ
unfolding intsum_sender_bits zeros
intsum_sender_value true value num_bits idx m draws =
    intsum_sender_bits num_bits 0 value 0 idx m draws
intsum_sender_value false value num_bits idx m draws = record {
  b0 = zeros num_bits;
  b1 = zeros num_bits;
  result = 0;
}

-- The loop over `j`: the values of one share, each with its number of bits.
unfoldable pub intsum_sender_values :
    List (ℕ × ℕ) → (valid : Bool) (idx m : ℕ) (draws : ℕ → ℕ) → Sender (List ℕ)
unfolding intsum_sender_value
intsum_sender_values [] valid idx m draws = record { b0 = []; b1 = []; result = [] }
intsum_sender_values ((value, num_bits) ∷ rest) valid idx m draws =
    let now = intsum_sender_value valid value num_bits idx m draws in
    let out = intsum_sender_values rest valid (num_bits + idx) m draws in
    record { b0 = now.b0 ++ out.b0; b1 = now.b1 ++ out.b1; result = now.result ∷ out.result }

-- The values of a share with their numbers of bits.
abbrev pub with_bits : List ℕ → List ℕ → List (ℕ × ℕ)
with_bits (v ∷ vs) (n ∷ ns) = (v, n) ∷ with_bits vs ns
with_bits _ _ = []

-- The loop over `i`: the shares, each with its validity. `idx` is the count of transfers so far.
unfoldable pub intsum_sender_loop :
    List (List ℕ × Bool) → (num_bits : List ℕ) (idx m : ℕ) (draws : ℕ → ℕ) → Sender (List (List ℕ))
unfolding intsum_sender_values
intsum_sender_loop [] num_bits idx m draws = record { b0 = []; b1 = []; result = [] }
intsum_sender_loop ((values, valid) ∷ rest) num_bits idx m draws =
    let now = intsum_sender_values (with_bits values num_bits) valid idx m draws in
    let out = intsum_sender_loop rest num_bits (length now.b0 + idx) m draws in
    record { b0 = now.b0 ++ out.b0; b1 = now.b1 ++ out.b1; result = now.result ∷ out.result }

unfoldable pub intsum_ot_sender :
    List (List ℕ × Bool) → (num_bits : List ℕ) (m : ℕ) (draws : ℕ → ℕ) → Sender (List (List ℕ))
unfolding intsum_sender_loop
intsum_ot_sender shares num_bits m draws = intsum_sender_loop shares num_bits 0 m draws

-- The first loop of `intsum_ot_receiver`: the choice bits of a value, of a share, of all shares.
unfoldable pub choice_bits : (rounds num : ℕ) → List Bool
choice_bits zero num = []
choice_bits (suc rounds) num = (num % 2 == 1) ∷ choice_bits rounds (num / 2)

unfoldable pub choice_values : List (ℕ × ℕ) → List Bool
unfolding choice_bits
choice_values [] = []
choice_values ((value, num_bits) ∷ rest) = choice_bits num_bits value ++ choice_values rest

unfoldable pub choice_shares : List (List ℕ) → (num_bits : List ℕ) → List Bool
unfolding choice_values
choice_shares [] num_bits = []
choice_shares (values ∷ rest) num_bits =
    choice_values (with_bits values num_bits) ++ choice_shares rest num_bits

-- The second loop: the sums of the received words, and the words that are left.
unfoldable pub receive_bits : (rounds ret m : ℕ) → List ℕ → ℕ × List ℕ
receive_bits zero ret m r = (ret, r)
receive_bits (suc rounds) ret m [] = (ret, [])
receive_bits (suc rounds) ret m (x ∷ r) = receive_bits rounds (reduce m (add64 ret x)) m r

unfoldable pub receive_values : (num_bits : List ℕ) (m : ℕ) → List ℕ → List ℕ × List ℕ
unfolding receive_bits
receive_values [] m r = ([], r)
receive_values (n ∷ num_bits) m r =
    let (v, r') = receive_bits n 0 m r in
    let (vs, r'') = receive_values num_bits m r' in (v ∷ vs, r'')

unfoldable pub receive_shares :
    (num_shares : ℕ) (num_bits : List ℕ) (m : ℕ) → List ℕ → List (List ℕ)
unfolding receive_values
receive_shares zero num_bits m r = []
receive_shares (suc n) num_bits m r =
    let (vs, r') = receive_values num_bits m r in vs ∷ receive_shares n num_bits m r'

unfoldable pub intsum_ot_receiver :
    (r : List ℕ) (num_shares : ℕ) (num_bits : List ℕ) (m : ℕ) → List (List ℕ)
unfolding receive_shares
intsum_ot_receiver r num_shares num_bits m = receive_shares num_shares num_bits m r

-- `gen_boolean_beaver_triples`: this party's random bits are triples `(x, y, r)`; it sends its
-- words in one transfer and receives `b` in the other, with the choice bits `y`.
unfoldable pub bool_triple_words : List (Bool × Bool × Bool) → List ℕ × List ℕ
bool_triple_words [] = ([], [])
bool_triple_words ((x, y, r) ∷ rest) =
    let (b0, b1) = bool_triple_words rest in (bit r ∷ b0, bit (xor x r) ∷ b1)

unfoldable pub bool_triple_choices : List (Bool × Bool × Bool) → List Bool
bool_triple_choices = map λ t. t.1

unfoldable pub bool_triples : List (Bool × Bool × Bool) → (b : List ℕ) → List BooleanBeaverTriple
bool_triples ((x, y, r) ∷ rest) (b ∷ bs) =
    record { a = x; b = y; c = not (b == bit (xor r (x && y))) } ∷ bool_triples rest bs
bool_triples _ _ = []

-- What the servers 0 and 1 get, from their random bits.
unfoldable pub gen_boolean_beaver_triples :
    (E : Emp)
    → (rand0 rand1 : List (Bool × Bool × Bool))
    → List BooleanBeaverTriple × List BooleanBeaverTriple
unfolding bool_triple_words bool_triple_choices bool_triples
gen_boolean_beaver_triples E rand0 rand1 =
    let w0 = bool_triple_words rand0 in
    let w1 = bool_triple_words rand1 in
    (
      bool_triples rand0 (ot_transfer E w1.0 w1.1 (bool_triple_choices rand0)),
      bool_triples rand1 (ot_transfer E w0.0 w0.1 (bool_triple_choices rand1)),
    )

module _ (K : Field) where
  -- `generate_beaver_triple_lazy` at server 0: its own triple and the one that it sends to
  -- server 1. The draws are for the two `A`, the two `B` and its own `C`.
  unfoldable pub generate_beaver_triple_lazy :
      (a b c other_a other_b : ℕ) → BeaverTriple × BeaverTriple
  generate_beaver_triple_lazy a b c other_a other_b =
      let sum_a = K.fmpz_add a other_a in
      let tmp = K.fmpz_add b other_b in
      (
        record { a = a; b = b; c = c },
        record { a = other_a; b = other_b; c = sub_mod K (K.fmpz_mul sum_a tmp) c },
      )
