-- ===== src/Circuit.antt =====
-- circuit.h: the validation circuits, the client's evaluation and a server's import of wires.
-- A `Gate*` is the place of the gate in `gates`: each gate is added right after it is made, and
-- its parents were added before it. `WireValue` is the one field of a gate that changes; the wire
-- values of all gates are one array, indexed by the place, and zero at first (`fmpz_init`).
pub mod Wires
pub mod Sharing
pub mod Checks
use prio_plus.Base.{
  ℕ, zero, suc, ◌+◌, ◌-◌, ◌*◌, ◌/◌, Bool, true, false, List, [], ◌∷◌, ◌++◌, ◌==◌, length,
  if◌then◌else◌, update, ◌&&◌,
}
use prio_plus.Field.{Field, add_mod, mul_mod, sub_mod}
use prio_plus.Share.{ClientPacket, split_share}

-- `Gate`, with the parents and the constant that its type uses.
pub data Gate : Type 0 where
  input : Gate
  add : (parent_l parent_r : ℕ) → Gate
  add_const : (parent_l constant : ℕ) → Gate
  mul : (parent_l parent_r : ℕ) → Gate
  mul_const : (parent_l constant : ℕ) → Gate

pub record Circuit : Type 0 where
  pub gates : List Gate
  pub result_zero : List ℕ
  pub mul_gates : List ℕ

abbrev pub Wires : Type 0
Wires = ℕ → ℕ

abbrev pub no_wires : Wires
no_wires i = 0

abbrev pub empty : Circuit
empty = record { gates = []; result_zero = []; mul_gates = [] }

abbrev pub is_mul : Gate → Bool
is_mul (mul l r) = true
is_mul _ = false

abbrev pub is_input : Gate → Bool
is_input input = true
is_input _ = false

unfoldable pub add_gate : Circuit → Gate → Circuit
add_gate c g = record c {
  gates = c.gates ++ g ∷ [];
  mul_gates = if is_mul g then c.mul_gates ++ length c.gates ∷ [] else c.mul_gates;
}

unfoldable pub add_zero_gate : Circuit → ℕ → Circuit
add_zero_gate c g = record c { result_zero = c.result_zero ++ g ∷ [] }

-- `Circuit(num_inputs)`.
unfoldable pub add_inputs : ℕ → Circuit → Circuit
add_inputs zero c = c
add_inputs (suc n) c = add_inputs n (add_gate c input)

unfoldable pub circuit : ℕ → Circuit
circuit n = add_inputs n empty

unfoldable pub num_mul_gates : Circuit → ℕ
num_mul_gates c = length c.mul_gates

module _ (K : Field) where
  unfoldable pub mul_by_neg_one : ℕ → Gate
  mul_by_neg_one gate = mul_const gate (sub_mod K 0 1)

  -- The body of the loop of `Eval`: the new value of a gate's wire.
  unfoldable pub eval_gate : Gate → (inp_count : ℕ) (inps : ℕ → ℕ) → Wires → ℕ
  eval_gate input inp_count inps w = inps inp_count
  eval_gate (add l r) inp_count inps w = add_mod K (w l) (w r)
  eval_gate (mul l r) inp_count inps w = mul_mod K (w l) (w r)
  eval_gate (add_const l c) inp_count inps w = add_mod K (w l) c
  eval_gate (mul_const l c) inp_count inps w = mul_mod K (w l) c

  -- The first loop of `Eval`, from gate `i` on.
  unfoldable pub eval_loop : List Gate → (i inp_count : ℕ) (inps : ℕ → ℕ) → Wires → Wires
  eval_loop [] i inp_count inps w = w
  eval_loop (g ∷ gs) i inp_count inps w =
      eval_loop gs (suc i) (if is_input g then suc inp_count else inp_count) inps
        (update w i (eval_gate g inp_count inps w))

  -- The second loop of `Eval`.
  unfoldable pub all_zero : List ℕ → Wires → Bool
  all_zero [] w = true
  all_zero (z ∷ zs) w = let rest = all_zero zs w in if w z == 0 then rest else false

  unfoldable pub eval : Circuit → (inps : ℕ → ℕ) → Bool × Wires
  unfolding eval_loop all_zero
  eval c inps = let w = eval_loop c.gates 0 0 inps no_wires in (all_zero c.result_zero w, w)

  -- `GetMulShares`, with a random draw for each gate; `i` counts the gates.
  unfoldable pub get_mul_shares_loop :
      List ℕ → (i : ℕ) (draws : ℕ → ℕ) → Wires → (ℕ → ℕ) × (ℕ → ℕ) → (ℕ → ℕ) × (ℕ → ℕ)
  get_mul_shares_loop [] i draws w shares = shares
  get_mul_shares_loop (g ∷ gs) i draws w (shares0, shares1) =
      let (a, b) = split_share K (w g) (draws i) in
      get_mul_shares_loop gs (suc i) draws w (update shares0 i a, update shares1 i b)

  unfoldable pub get_mul_shares :
      Circuit → (draws : ℕ → ℕ) → Wires → (ℕ → ℕ) × (ℕ → ℕ) → (ℕ → ℕ) × (ℕ → ℕ)
  unfolding get_mul_shares_loop
  get_mul_shares c draws w shares = get_mul_shares_loop c.mul_gates 0 draws w shares

  -- The body of the loop of `ImportWires`.
  unfoldable pub import_gate :
      Gate → (p : ClientPacket) (server_num mul_idx inp_idx : ℕ) (inps : ℕ → ℕ) → Wires → ℕ
  import_gate input p server_num mul_idx inp_idx inps w = inps inp_idx
  import_gate (add l r) p server_num mul_idx inp_idx inps w = add_mod K (w l) (w r)
  import_gate (mul l r) p server_num mul_idx inp_idx inps w = p.mul_shares mul_idx
  import_gate (add_const l c) p server_num mul_idx inp_idx inps w =
      K.fmpz_mod (if server_num == 0 then K.fmpz_add (w l) c else w l) K.modulus
  import_gate (mul_const l c) p server_num mul_idx inp_idx inps w = mul_mod K (w l) c

  unfoldable pub import_loop :
      List Gate
      → (i : ℕ) (p : ClientPacket) (server_num mul_idx inp_idx : ℕ) (inps : ℕ → ℕ) → Wires
      → Wires
  import_loop [] i p server_num mul_idx inp_idx inps w = w
  import_loop (g ∷ gs) i p server_num mul_idx inp_idx inps w =
      import_loop gs (suc i) p server_num (if is_mul g then suc mul_idx else mul_idx)
        (if is_input g then suc inp_idx else inp_idx) inps
        (update w i (import_gate g p server_num mul_idx inp_idx inps w))

  unfoldable pub import_wires : Circuit → ClientPacket → (server_num : ℕ) (inps : ℕ → ℕ) → Wires
  unfolding import_loop
  import_wires c p server_num inps = import_loop c.gates 0 p server_num 0 0 inps no_wires

  -- The three gates are at the next three places.
  unfoldable pub add_check_mul_equal : Circuit → (i j k : ℕ) → Circuit
  unfolding add_gate add_zero_gate mul_by_neg_one
  add_check_mul_equal c i j k =
      let n = length c.gates in
      let c1 = add_gate c (mul i j) in
      let c2 = add_gate c1 (mul_by_neg_one k) in
      let c3 = add_gate c2 (add n (n + 1)) in add_zero_gate c3 (n + 2)

  unfoldable pub check_var : Circuit
  unfolding circuit add_inputs add_gate add_check_mul_equal
  check_var = add_check_mul_equal (circuit 2) 0 0 1

  -- The inner loop of `CheckLinReg` over `j`, with `rounds` left; it returns `idx` too.
  unfoldable pub lin_reg_row : (rounds i j idx : ℕ) → Circuit → Circuit × ℕ
  lin_reg_row zero i j idx c = (c, idx)
  lin_reg_row (suc rounds) i j idx c =
      lin_reg_row rounds i (j + 1) (idx + 1) (add_check_mul_equal c i j idx)

  unfoldable pub lin_reg_rows : (rounds num_x i idx : ℕ) → Circuit → Circuit × ℕ
  lin_reg_rows zero num_x i idx c = (c, idx)
  lin_reg_rows (suc rounds) num_x i idx c =
      let (c', idx') = lin_reg_row (num_x - i) i i idx c in
      lin_reg_rows rounds num_x (i + 1) idx' c'

  unfoldable pub lin_reg_xy : (rounds num_x i idx : ℕ) → Circuit → Circuit
  lin_reg_xy zero num_x i idx c = c
  lin_reg_xy (suc rounds) num_x i idx c =
      lin_reg_xy rounds num_x (i + 1) idx (add_check_mul_equal c num_x i (idx + i))

  unfoldable pub check_lin_reg : (degree : ℕ) → Circuit
  unfolding lin_reg_rows lin_reg_row lin_reg_xy circuit add_inputs add_gate add_check_mul_equal
  check_lin_reg degree =
      let num_x = degree - 1 in
      let num_fields = 2 * num_x + 1 + num_x * (num_x + 1) / 2 in
      let (c, idx) = lin_reg_rows num_x num_x 0 degree (circuit num_fields) in
      lin_reg_xy num_x num_x 0 idx c
