-- ===== src/Correlated.antt =====
-- correlated.h and correlated.cpp: the store of precomputed triples and daBits, and the protocols
-- of the two servers that use it. A queue is a list, its front first. A message is a value that
-- one server's part returns and the other's takes; the child process that sends while its parent
-- receives (`do_fork`) changes no value and is left out.
pub mod Queues
pub mod Products
pub mod Conversion
pub mod MultiBit
pub mod OtConversion
pub mod Generation
pub mod Supplies
use prio_plus.Base.{
  ℕ, zero, suc, ◌+◌, ◌-◌, ◌*◌, ◌/◌, ◌%◌, ◌^◌, Bool, true, false, List, [], ◌∷◌, ◌++◌, map, Option,
  none, some, length, xor, ◌&&◌, bit, ◌==◌, ltb, if◌then◌else◌, u64, add64, sub64, mul64,
}
use prio_plus.Field.{Field, add_mod, sub_mod}
use prio_plus.Share.{BooleanBeaverTriple, DaBit, make_local_dabit}
use prio_plus.Ot.{Emp, ot_transfer}

-- The fields of `CorrelatedStore` that its operations read and change.
pub record Store : Type 0 where
  pub batch_size : ℕ
  pub server_num : ℕ
  pub lazy : Bool
  pub dabit_store : List DaBit
  pub btriple_store : List BooleanBeaverTriple

-- What this server gets when both servers make a number of triples or of daBits together:
-- `gen_boolean_beaver_triples`, `generateDaBit`, and the random bits and draws of the daBits that
-- server 0 makes for both.
pub record Supply : Type 0 where
  pub bool_triples : ℕ → List BooleanBeaverTriple
  pub dabits : ℕ → List DaBit
  pub lazy_draws : ℕ → List (ℕ × ℕ)

infixl 5 ◌>>=◌
abbrev pub ◌>>=◌ {ℓ κ} : {A : Type ℓ} {B : Type κ} → Option A → (A → Option B) → Option B
none >>= f = none
some a >>= f = f a

-- `front` and `pop`; the front of an empty queue is undefined.
abbrev pub pop_front : {A : Type 0} → List A → Option (A × List A)
pop_front [] = none
pop_front (x ∷ xs) = some (x, xs)

module _ (S : Supply) where
  unfoldable pub add_bool_triples : ℕ → Store → Store
  add_bool_triples n s =
      let num_to_make = if ltb s.batch_size n then n else s.batch_size in
      record s { btriple_store = s.btriple_store ++ S.bool_triples num_to_make }

  unfoldable pub check_bool_triples : ℕ → Store → Store
  unfolding add_bool_triples
  check_bool_triples n s =
      if ltb (length s.btriple_store) n then add_bool_triples (n - length s.btriple_store) s else s

  unfoldable pub get_bool_triple : Store → Option (BooleanBeaverTriple × Store)
  unfolding check_bool_triples
  get_bool_triple s = do
    let s' = check_bool_triples 1 s
    (t, rest) ← pop_front s'.btriple_store
    some (t, record s' { btriple_store = rest })

  -- The first loop of `multiplyBoolShares`: the masked bits `d` and `e` that are sent, and `z`.
  unfoldable pub mask_bits : List (Bool × Bool) → Store → Option (List (Bool × Bool × Bool) × Store)
  unfolding get_bool_triple
  mask_bits [] s = some ([], s)
  mask_bits ((x, y) ∷ rest) s = do
    (triple, s') ← get_bool_triple s
    (masked, s'') ← mask_bits rest s'
    some ((xor x triple.a, xor y triple.b, triple.c) ∷ masked, s'')

  -- `multiplyBoolShares` up to the exchange.
  unfoldable pub multiply_send :
      List (Bool × Bool) → Store → Option (List (Bool × Bool × Bool) × Store)
  unfolding check_bool_triples mask_bits
  multiply_send xy s = mask_bits xy (check_bool_triples (length xy) s)

-- The last loop of `multiplyBoolShares`, with the `d` and `e` of the other server.
unfoldable pub multiply_receive :
    (server_num : ℕ) → List (Bool × Bool) → (this other : List (Bool × Bool × Bool)) → List Bool
multiply_receive server_num ((x, y) ∷ xy) ((d_this, e_this, z) ∷ this)
      ((d_other, e_other, _) ∷ other) =
    let d = xor d_this d_other in
    let e = xor e_this e_other in
    let z' = xor z (xor (x && e) (y && d)) in
    (if server_num == 0 then xor z' (d && e) else z') ∷ multiply_receive server_num xy this other
multiply_receive server_num _ _ _ = []

-- The two servers' calls of `multiplyBoolShares`, with the shares of `x` and `y` of each.
unfoldable pub multiply_bool_shares :
    (S0 S1 : Supply) (xy0 xy1 : List (Bool × Bool)) (s0 s1 : Store)
    → Option ((List Bool × List Bool) × (Store × Store))
unfolding multiply_send multiply_receive
multiply_bool_shares S0 S1 xy0 xy1 s0 s1 = do
  (this0, s0') ← multiply_send S0 xy0 s0
  (this1, s1') ← multiply_send S1 xy1 s1
  some ((multiply_receive 0 xy0 this0 this1, multiply_receive 1 xy1 this1 this0), (s0', s1'))

module _ (K : Field) where
  -- The daBits of a lazy store: server 0 makes both halves and sends the second to server 1.
  unfoldable pub lazy_dabits : (server_num : ℕ) → List (ℕ × ℕ) → List DaBit
  lazy_dabits server_num [] = []
  lazy_dabits server_num ((b, draw) ∷ ds) =
      let (d0, d1) = make_local_dabit K b draw in
      (if server_num == 0 then d0 else d1) ∷ lazy_dabits server_num ds

  module _ (S : Supply) where
    unfoldable pub add_dabits : ℕ → Store → Store
    unfolding lazy_dabits
    add_dabits n s =
        let new = if s.lazy then lazy_dabits s.server_num (S.lazy_draws n) else S.dabits n in
        record s { dabit_store = s.dabit_store ++ new }

    unfoldable pub check_dabits : ℕ → Store → Store
    unfolding add_dabits
    check_dabits n s =
        if ltb (length s.dabit_store) n then add_dabits (n - length s.dabit_store) s else s

    unfoldable pub get_dabit : Store → Option (DaBit × Store)
    unfolding check_dabits
    get_dabit s = do
      let s' = check_dabits 1 s
      (t, rest) ← pop_front s'.dabit_store
      some (t, record s' { dabit_store = rest })

    -- The Boolean triples are disabled: their target is 0.
    unfoldable pub maybe_update : Store → Store
    unfolding add_bool_triples add_dabits
    maybe_update s =
        let make_da = ltb (length s.dabit_store) (s.batch_size / 2) in
        let da_target = 2 * bit make_da in
        let s' =
          if ltb (length s.btriple_store) (0 * s.batch_size)
          then add_bool_triples S (0 * s.batch_size) s
          else s in
        if ltb (length s'.dabit_store) (da_target * s'.batch_size)
        then add_dabits (da_target * s'.batch_size) s'
        else s'

    -- The first loop of `b2a_daBit_single`: the masked bit that is sent, and `[b]_p`.
    unfoldable pub mask_dabits : List Bool → Store → Option (List (Bool × ℕ) × Store)
    unfolding get_dabit
    mask_dabits [] s = some ([], s)
    mask_dabits (x ∷ xs) s = do
      (dabit, s') ← get_dabit s
      (masked, s'') ← mask_dabits xs s'
      some ((xor x dabit.b2, dabit.bp) ∷ masked, s'')

    unfoldable pub b2a_single_send : List Bool → Store → Option (List (Bool × ℕ) × Store)
    unfolding check_dabits mask_dabits
    b2a_single_send xs s = mask_dabits xs (check_dabits (length xs) s)

  -- The last loop: `fmpz_neg`, `fmpz_add_ui` of the server's number and `fmpz_mod` are one
  -- subtraction.
  unfoldable pub b2a_single_receive : (server_num : ℕ) → (this other : List (Bool × ℕ)) → List ℕ
  b2a_single_receive server_num ((v_this, xp) ∷ this) ((v_other, _) ∷ other) =
      (if xor v_this v_other then sub_mod K server_num xp else xp)
      ∷ b2a_single_receive server_num this other
  b2a_single_receive server_num _ _ = []

  -- The two servers' calls of `b2a_daBit_single`.
  unfoldable pub b2a_dabit_single :
      (S0 S1 : Supply) (x0 x1 : List Bool) (s0 s1 : Store)
      → Option ((List ℕ × List ℕ) × (Store × Store))
  unfolding b2a_single_send b2a_single_receive
  b2a_dabit_single S0 S1 x0 x1 s0 s1 = do
    (this0, s0') ← b2a_single_send S0 x0 s0
    (this1, s1') ← b2a_single_send S1 x1 s1
    some ((b2a_single_receive 0 this0 this1, b2a_single_receive 1 this1 this0), (s0', s1'))

  -- The bits `j`, `j + 1`, ... of a value, by `fmpz_tstbit`.
  unfoldable pub test_bits : (rounds j x : ℕ) → List Bool
  test_bits zero j x = []
  test_bits (suc rounds) j x = K.fmpz_tstbit x j ∷ test_bits rounds (suc j) x

  -- The first loop of `b2a_daBit_multi`, over the values and their numbers of bits.
  unfoldable pub bits_of_values : List (ℕ × ℕ) → List Bool
  unfolding test_bits
  bits_of_values [] = []
  bits_of_values ((x, num_bits) ∷ rest) = test_bits num_bits 0 x ++ bits_of_values rest

  -- The second loop over `j`: the sum for one value, and the converted bits that are left.
  unfoldable pub join_bits : (rounds j acc : ℕ) → List ℕ → ℕ × List ℕ
  join_bits zero j acc tmp = (acc, tmp)
  join_bits (suc rounds) j acc [] = (acc, [])
  join_bits (suc rounds) j acc (t ∷ tmp) =
      join_bits rounds (suc j) (add_mod K acc (K.fmpz_mul t (2 ^ j % u64))) tmp

  unfoldable pub join_values : (num_bits : List ℕ) → List ℕ → List ℕ
  unfolding join_bits
  join_values [] tmp = []
  join_values (n ∷ ns) tmp = let (x, tmp') = join_bits n 0 0 tmp in x ∷ join_values ns tmp'

  abbrev pub num_bits_of : List (ℕ × ℕ) → List ℕ
  num_bits_of [] = []
  num_bits_of ((x, n) ∷ rest) = n ∷ num_bits_of rest

  -- The two servers' calls of `b2a_daBit_multi`; `checkDaBits` is called for the total first.
  unfoldable pub b2a_dabit_multi :
      (S0 S1 : Supply) (x0 x1 : List (ℕ × ℕ)) (s0 s1 : Store)
      → Option ((List ℕ × List ℕ) × (Store × Store))
  unfolding b2a_dabit_single bits_of_values join_values check_dabits
  b2a_dabit_multi S0 S1 x0 x1 s0 s1 = do
    let bits0 = bits_of_values x0
    let bits1 = bits_of_values x1
    ((xp0, xp1), (s0', s1')) ←
        b2a_dabit_single S0 S1 bits0 bits1 (check_dabits S0 (length bits0) s0)
          (check_dabits S1 (length bits1) s1)
    some ((join_values (num_bits_of x0) xp0, join_values (num_bits_of x1) xp1), (s0', s1'))

-- `generateDaBit` over 64-bit words: the words that server 0 hands to the transfer for its bits and
-- its random words, and its own `x`.
unfoldable pub dabit_words : (m : ℕ) → List (Bool × ℕ) → (List ℕ × List ℕ) × List ℕ
dabit_words m [] = (([], []), [])
dabit_words m ((b, draw) ∷ rest) =
    let ((b0s, b1s), xs) = dabit_words m rest in
    let b0 = draw % m in ((b0 ∷ b0s, (add64 b0 (bit b) % m) ∷ b1s), sub64 m b0 ∷ xs)

-- The last loop of `generateDaBit`.
unfoldable pub dabits_of_words : (m : ℕ) → List Bool → List ℕ → List DaBit
dabits_of_words m (b ∷ bs) (x ∷ xs) =
    record { bp = add64 (bit b) (mul64 2 (sub64 m x)) % m; b2 = b } ∷ dabits_of_words m bs xs
dabits_of_words m _ _ = []

abbrev pub firsts : {A B : Type 0} → List (A × B) → List A
firsts [] = []
firsts ((a, b) ∷ rest) = a ∷ firsts rest

-- The two servers' calls, with the bits and words of server 0 and the bits of server 1.
unfoldable pub generate_dabit :
    (E : Emp) (m : ℕ) → List (Bool × ℕ) → List Bool → List DaBit × List DaBit
unfolding dabit_words dabits_of_words
generate_dabit E m rand0 rand1 =
    let ((b0, b1), x) = dabit_words m rand0 in
    (dabits_of_words m (firsts rand0) x, dabits_of_words m rand1 (ot_transfer E b0 b1 rand1))
