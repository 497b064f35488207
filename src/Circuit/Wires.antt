-- ===== src/Circuit/Wires.antt =====
-- The order of evaluation: a gate's wire is written once, and the circuit knows its
-- multiplication gates in that order.
use prio_plus.Base.{
  ℕ, suc, ◌+◌, ◌<◌, ◌≡◌, refl, List, [], ◌∷◌, ◌++◌, length, if◌then◌else◌, arith, update,
}
use native.Mathlib.Nat.{add-zero}
use prio_plus.Field.{Field}
use prio_plus.Circuit.{Gate, Circuit, Wires, is_mul, is_input, add_gate, eval_loop, eval_gate}

-- The places of the multiplication gates of a list that starts at place `i`.
abbrev pub mul_places : List Gate → ℕ → List ℕ
mul_places [] i = []
mul_places (g ∷ gs) i = if is_mul g then i ∷ mul_places gs (suc i) else mul_places gs (suc i)

abbrev pub input_count : List Gate → ℕ
input_count [] = 0
input_count (g ∷ gs) = if is_input g then suc (input_count gs) else input_count gs

-- What every circuit that is built by `addGate` satisfies.
abbrev pub IsListed : Circuit → Type 0
IsListed c = c.mul_gates ≡ mul_places c.gates 0

mul_places-append :
    (gs : List Gate) (g : Gate) (i : ℕ)
    → mul_places (gs ++ g ∷ []) i
      ≡ (if is_mul g then mul_places gs i ++ (i + length gs) ∷ [] else mul_places gs i)
mul_places-append [] g i = ground (arith, add-zero i)
mul_places-append (h ∷ gs) g i = ground (arith, mul_places-append gs g (suc i))

pub add_gate-IsListed : (c : Circuit) (g : Gate) → IsListed c → IsListed (add_gate c g)
unfolding add_gate
add_gate-IsListed c g h = ground (arith, mul_places-append c.gates g 0)

count_step :
    (g : Gate) (gs : List Gate) (n : ℕ)
    → n + input_count (g ∷ gs) ≡ (if is_input g then suc n else n) + input_count gs
count_step g gs n = ground arith

module _ (K : Field) where
  pub eval_loop_keeps :
      (gs : List Gate) (i n : ℕ) (inps : ℕ → ℕ) (w : Wires) (j : ℕ)
      → j < i
      → eval_loop K gs i n inps w j ≡ w j
  unfolding eval_loop
  eval_loop_keeps [] i n inps w j h = refl
  eval_loop_keeps (g ∷ gs) i n inps w j h = ground (
    arith,
    eval_loop_keeps gs (suc i) (if is_input g then suc n else n) inps
        (update w i (eval_gate K g n inps w)) j,
  )

  pub eval_loop-append :
      (gs hs : List Gate) (i n : ℕ) (inps : ℕ → ℕ) (w : Wires)
      → eval_loop K (gs ++ hs) i n inps w
        ≡ eval_loop K hs (i + length gs) (n + input_count gs) inps (eval_loop K gs i n inps w)
  unfolding eval_loop
  eval_loop-append [] hs i n inps w = rw (add-zero i, add-zero n)
  eval_loop-append (g ∷ gs) hs i n inps w =
      let n' = if is_input g then suc n else n in
      let e : i + suc (length gs) ≡ suc i + length gs = omega arith in
      rw (e, count_step g gs n)
        (eval_loop-append gs hs (suc i) n' inps (update w i (eval_gate K g n inps w)))
