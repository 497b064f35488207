-- ===== src/Circuit/Checks.antt =====
-- What a product check adds to a circuit, and the circuit for variances.
pub mod LinReg
use prio_plus.Base.{
  ℕ, zero, suc, ◌+◌, ◌*◌, ◌<◌, ◌≤◌, ◌≡◌, refl, ap, ◌∙◌, sym, Bool, true, false, List, [], ◌∷◌, ◌++◌,
  length, if◌then◌else◌, arith, ◌↔◌, update, ◌==◌, Bool-cases, inl, inr, Cong, ◌▸◌, cong_of_eq,
  cong_sym, cong_refl, add-Cong, mul-Cong, mod-Cong, ==_iff, add-Cong_cancel, eq_of_cong,
  update_self, update_ne, length-append,
}
use mathlib.Core.List.{append_assoc, append-nil}
use mathlib.Core.Path.{ap₂}
use native.Mathlib.Nat.{zero-add, add-zero}
use prio_plus.Field.{
  Field, add_mod, mul_mod, sub_mod, add_mod-Cong, mul_mod-Cong, sub_mod-Cong, add_mod-lt,
}
use prio_plus.Circuit.{
  Gate, input, add, mul, mul_const, Circuit, Wires, eval_loop, eval_gate, eval, all_zero,
  add_check_mul_equal, mul_by_neg_one, no_wires, add_gate, add_zero_gate, circuit, add_inputs,
  empty, check_var,
}
use prio_plus.Circuit.Wires.{input_count, eval_loop-append, eval_loop_keeps}

module _ (K : Field) where
  open K use {modulus, modulus_pos}

  -- The value of the last gate of a product check, on the values of the three wires.
  check_value : (x y z : ℕ) → ℕ
  check_value x y z = add_mod K (mul_mod K x y) (mul_mod K z (sub_mod K 0 1))

  check_value-Cong : (x y z : ℕ) → Cong modulus (check_value x y z + z) (x * y)
  unfolding check_value
  check_value-Cong x y z =
      let s = sub_mod K 0 1 in
      add-Cong
        (add_mod-Cong K (mul_mod K x y) (mul_mod K z s)
          ▸ add-Cong (mul_mod-Cong K x y) (mul_mod-Cong K z s))
        (cong_refl modulus z)
      ▸ cong_of_eq modulus (omega arith)
      ▸ add-Cong (cong_refl modulus (x * y)) (mul-Cong (cong_refl modulus z) (sub_mod-Cong K 0 1))
      ▸ cong_of_eq modulus (omega arith)

  check_value_iff : (x y z : ℕ) → (check_value x y z ≡ 0) ↔ Cong modulus (x * y) z
  unfolding check_value
  check_value_iff x y z = (
    λ e. cong_sym (check_value-Cong x y z) ▸ cong_of_eq modulus (omega (arith, e)),
    λ h. eq_of_cong (add_mod-lt K (mul_mod K x y) (mul_mod K z (sub_mod K 0 1))) modulus_pos (
        add-Cong_cancel z modulus_pos
          (check_value-Cong x y z ▸ h ▸ cong_of_eq modulus (omega arith))),
  )

  abbrev Below : ℕ → List ℕ → Type 0
  Below n [] = Unit {0}
  Below n (z ∷ zs) = (z < n) × Below n zs

  Below-mono : (m n : ℕ) (zs : List ℕ) → m ≤ n → Below m zs → Below n zs
  Below-mono m n [] h b = tt
  Below-mono m n (z ∷ zs) h b = (omega arith, Below-mono m n zs h b.1)

  Below-append : (n z : ℕ) (zs : List ℕ) → Below n zs → z < n → Below n (zs ++ z ∷ [])
  Below-append n z [] b h = (h, tt)
  Below-append n z (y ∷ ys) b h = (b.0, Below-append n z ys b.1 h)

  all_zero-append :
      (zs : List ℕ) (z : ℕ) (w w' : Wires) (n : ℕ)
      → Below n zs
      → ((j : ℕ) → j < n → w' j ≡ w j)
      → (all_zero K (zs ++ z ∷ []) w' ≡ true) ↔ ((all_zero K zs w ≡ true) × (w' z ≡ 0))
  unfolding all_zero
  all_zero-append [] z w w' n b same = ground arith
  all_zero-append (y ∷ ys) z w w' n b same =
      ground (arith, same y b.0, all_zero-append ys z w w' n b.1 same)

  -- A circuit over `m` inputs that accepts exactly the inputs with `P`: its first `m` wires are
  -- the inputs.
  pub record Checks (m : ℕ) (inps : ℕ → ℕ) (P : Type 0) (c : Circuit) : Type 0 where
    pub zeros_below : Below (length c.gates) c.result_zero
    pub inputs_fit : m ≤ length c.gates
    pub inputs_kept : (j : ℕ) → j < m → (eval K c inps).1 j ≡ inps j
    pub accepts_iff : ((eval K c inps).0 ≡ true) ↔ P

  -- The three gates that a product check adds.
  abbrev added : (n i j k : ℕ) → List Gate
  added n i j k = mul i j ∷ mul_by_neg_one K k ∷ add n (n + 1) ∷ []

  added_lem :
      (c : Circuit) (i j k : ℕ)
      → ((add_check_mul_equal K c i j k).gates ≡ c.gates ++ added (length c.gates) i j k)
        × ((add_check_mul_equal K c i j k).result_zero ≡ c.result_zero ++ (length c.gates + 2) ∷ [])
  unfolding add_check_mul_equal
  added_lem c i j k = (simp append_assoc, refl)

  added_wires :
      (n ic i j k : ℕ) (inps : ℕ → ℕ) (w : Wires)
      → i < n
      → j < n
      → k < n
      → (let w' = eval_loop K (added n i j k) n ic inps w in
          (w' (n + 2) ≡ check_value (w i) (w j) (w k)) × ((x : ℕ) → x < n → w' x ≡ w x))
  unfolding eval_loop eval_gate mul_by_neg_one check_value
  added_wires n ic i j k inps w hi hj hk = (ground arith, λ x h. ground arith)

  -- A product check narrows what the circuit accepts by one product.
  pub add_check_mul_equal-Checks :
      (m : ℕ) (inps : ℕ → ℕ) (P : Type 0) (c : Circuit) (i j k : ℕ)
      → Checks m inps P c
      → i < m
      → j < m
      → k < m
      → Checks m inps (P × Cong modulus (inps i * inps j) (inps k)) (add_check_mul_equal K c i j k)
  unfolding eval
  add_check_mul_equal-Checks m inps P c i j k h hi hj hk =
      let n = length c.gates in
      let c' = add_check_mul_equal K c i j k in
      let w = (eval K c inps).1 in
      let gs = (added_lem c i j k).0 in
      let zs = (added_lem c i j k).1 in
      let below = h.inputs_fit in
      let run : (eval K c' inps).1 ≡ eval_loop K (added n i j k) n (input_count c.gates) inps w =
        ap (λ g. eval_loop K g 0 0 inps no_wires) gs
        ∙ eval_loop-append K c.gates (added n i j k) 0 0 inps no_wires
        ∙ ap₂ (λ a b. eval_loop K (added n i j k) a b inps w) (zero-add n)
            (zero-add (input_count c.gates)) in
      let ws =
        added_wires n (input_count c.gates) i j k inps w (omega arith) (omega arith)
          (omega arith) in
      let w' = (eval K c' inps).1 in
      let kept = λ (x : ℕ) (x<n : x < n). ap (λ f. f x) run ∙ ws.1 x x<n in
      let in_i = h.inputs_kept i hi in
      let in_j = h.inputs_kept j hj in
      let in_k = h.inputs_kept k hk in
      let last : w' (n + 2) ≡ check_value (inps i) (inps j) (inps k) =
        ap (λ f. f (n + 2)) run ∙ ws.0 ∙ cc in
      let ez = ap (λ z. all_zero K z w') zs in
      let both = all_zero-append c.result_zero (n + 2) w w' n h.zeros_below kept in
      let check = check_value_iff (inps i) (inps j) (inps k) in
      let len : length c'.gates ≡ n + 3 = ap length gs ∙ length-append c.gates (added n i j k) in
      record {
        zeros_below =
            rw (zs, len)
              (Below-append (n + 3) (n + 2) c.result_zero
                (Below-mono n (n + 3) c.result_zero (omega arith) h.zeros_below) (omega arith));
        inputs_fit = omega arith;
        inputs_kept = λ x x<m. kept x (omega arith) ∙ h.inputs_kept x x<m;
        accepts_iff = (
          λ e. let s = both.0 (sym ez ∙ e) in (h.accepts_iff.0 s.0, check.0 (sym last ∙ s.1)),
          λ s. ez ∙ both.1 (h.accepts_iff.1 s.0, last ∙ check.1 s.1),
        );
      }

  -- A circuit of inputs alone accepts everything.
  input_gates : ℕ → List Gate
  input_gates zero = []
  input_gates (suc n) = input ∷ input_gates n

  add_inputs_lem :
      (n : ℕ) (c : Circuit)
      → ((add_inputs n c).gates ≡ c.gates ++ input_gates n)
        × ((add_inputs n c).result_zero ≡ c.result_zero)
  unfolding add_inputs add_gate input_gates
  add_inputs_lem zero c = (sym (append-nil c.gates), refl)
  add_inputs_lem (suc n) c =
      let ih = add_inputs_lem n (add_gate c input) in
      (ih.0 ∙ append_assoc c.gates (input ∷ []) (input_gates n), ih.1)

  length-input_gates : (n : ℕ) → length (input_gates n) ≡ n
  unfolding input_gates
  length-input_gates zero = refl
  length-input_gates (suc n) = ap suc (length-input_gates n)

  input_wires :
      (n i ic : ℕ) (inps : ℕ → ℕ) (w : Wires) (j : ℕ)
      → j < n
      → eval_loop K (input_gates n) i ic inps w (i + j) ≡ inps (ic + j)
  unfolding input_gates eval_loop eval_gate
  input_wires zero i ic inps w j h = absurd (omega arith)
  input_wires (suc n) i ic inps w zero h =
      rw (add-zero i, add-zero ic)
        (eval_loop_keeps K (input_gates n) (suc i) (suc ic) inps (update w i (inps ic)) i
            (omega arith)
          ∙ update_self w i (inps ic))
  input_wires (suc n) i ic inps w (suc j) h =
      let ei : i + suc j ≡ suc i + j = omega arith in
      let ec : ic + suc j ≡ suc ic + j = omega arith in
      rw (ei, ec) (input_wires n (suc i) (suc ic) inps (update w i (inps ic)) j (omega arith))

  pub circuit-Checks : (m : ℕ) (inps : ℕ → ℕ) → Checks m inps (Unit {0}) (circuit m)
  unfolding eval circuit all_zero
  circuit-Checks m inps =
      let e = add_inputs_lem m empty in
      record {
        zeros_below = rw e.1 tt;
        inputs_fit = omega (arith, ap length e.0, length-input_gates m);
        inputs_kept = λ j h.
            ap (λ g. eval_loop K g 0 0 inps no_wires j) e.0
            ∙ ap (eval_loop K (input_gates m) 0 0 inps no_wires) (sym (zero-add j))
            ∙ input_wires m 0 0 inps no_wires j h
            ∙ ap inps (zero-add j);
        accepts_iff = (λ _. tt, λ _. ap (λ z. all_zero K z (eval K (circuit m) inps).1) e.1);
      }

  -- `Eval` of the circuit of `CheckVar` accepts `x, y` exactly when `y` is the square of `x`, modulo
  -- `Int_Modulus`.
  pub eval-check_var :
      (inps : ℕ → ℕ)
      → ((eval K (check_var K) inps).0 ≡ true) ↔ Cong modulus (inps 0 * inps 0) (inps 1)
  unfolding check_var
  eval-check_var inps =
      let h =
        (add_check_mul_equal-Checks 2 inps (Unit {0}) (circuit 2) 0 0 1 (circuit-Checks 2 inps)
          (omega arith) (omega arith) (omega arith)).accepts_iff in
      (λ e. (h.0 e).1, λ e. h.1 (tt, e))
