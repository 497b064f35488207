-- ===== src/Server/Xor/Answers.antt =====
-- `xor_op` (AND, OR) and `max_op` (MAX, MIN): what server 0 answers.
use prio_plus.Base.{
  ◌+◌, ◌^◌, ℕ, zero, suc, ◌-◌, ◌*◌, ◌<◌, ◌≤◌, ◌≡◌, ◌≢◌, refl, ap, ◌∙◌, sym, true, false, List, [],
  some, Bool-cases, inl, inr, arith, ltb, leb, ◌==◌, ==_iff, if◌then◌else◌,
}
use prio_plus.Server.{
  Shares, ret_ans, ret_invalid, MessageType, max_op_type, min_op_type, keys, get_in, xor64,
  accept_all, collect_shares, known_loop, valid_loop, xor_answer, xor_op, xor_array, max_loop,
  max_answer, max_op,
}
use prio_plus.Server.Xor.{xor_self, eq_of_xor}
use prio_plus.Server.Xor.Folds.{
  count_known, xor_of_shares, xor_of_shares-zero, known_loop-known, known_loop-lt, valid_loop-lt,
  loops-xor,
}

abbrev pub map_of : {V : Type 0} → Shares V → Shares V
map_of inputs = collect_shares accept_all inputs []

-- The keys that server 1 sends.
abbrev pub asked : {V : Type 0} (order : Shares V → Shares V) (inputs1 : Shares V) → List ℕ
asked order inputs1 = keys (order (map_of inputs1))

from_zero :
    {V : Type 0} (at : V → ℕ) (ks : List ℕ) (m : Shares V) (get : ℕ → V)
    → xor64 (xor64 0 0) (xor_of_shares at ks m get) ≡ xor_of_shares at ks m get
from_zero at ks m get =
    ap (λ x. xor64 x (xor_of_shares at ks m get)) (xor_self 64 0) ∙ xor_of_shares-zero at ks m get

-- When server 0 knows less than half of `total_inputs` among the keys that server 1 sends, `xor_op`
-- refuses the answer; else it answers by the exclusive or, over the keys that it knows, of the words
-- that the two servers' shares make: for AND whether it is 0, for OR whether it is not.
pub xor_op_lem :
    (type : MessageType) (order : Shares ℕ → Shares ℕ) (total : ℕ) (inputs0 inputs1 : Shares ℕ)
    → (let m0 = map_of inputs0 in
        let m1 = map_of inputs1 in
        let ks = keys (order m1) in
        xor_op type order total inputs0 inputs1 ≡ (
          if ltb (2 * count_known ks m0) total
          then ret_invalid
          else xor_answer type (xor_of_shares (λ v. v) ks m0 (get_in 0 m1))))
unfolding xor_op
xor_op_lem type order total inputs0 inputs1 =
    let m0 = map_of inputs0 in
    let m1 = map_of inputs1 in
    let ks = keys (order m1) in
    rw
      (
        known_loop-known xor64 ks m0 0,
        loops-xor xor64 (λ a. a) (λ v. v) (λ a v. refl) ks m0 (get_in 0 m1) 0 0 0,
        from_zero (λ v. v) ks m0 (get_in 0 m1),
      )
      refl

xor_array-step :
    (max_inp j : ℕ) → j ≤ max_inp → (a v : ℕ → ℕ) → xor_array max_inp a v j ≡ xor64 (a j) (v j)
xor_array-step max_inp j h a v = let t : leb j max_inp ≡ true = ground arith in rw t refl

-- The loop stops at the highest place where the arrays differ.
max_loop-highest :
    (n j : ℕ) (a b : ℕ → ℕ)
    → j ≤ n
    → a j ≢ b j
    → ((i : ℕ) → j < i → i ≤ n → a i ≡ b i)
    → max_loop n a b ≡ some j
unfolding max_loop
max_loop-highest zero j a b le ne above =
    let z : j ≡ 0 = omega arith in
    elim (Bool-cases (a 0 == b 0)) [
      | inl e ↦ absurd (ne (rw z ((==_iff (a 0) (b 0)).0 e)))
      | inr e ↦ rw (e, z) refl
    ]
max_loop-highest (suc n) j a b le ne above = elim (Bool-cases (j == suc n)) [
  | inl s ↦
      let top = (==_iff j (suc n)).0 s in
      elim (Bool-cases (a (suc n) == b (suc n))) [
        | inl e ↦ absurd (ne (rw top ((==_iff _ _).0 e)))
        | inr e ↦ rw (e, top) refl
      ]
  | inr s ↦
      let below : j ≤ n = ground arith in
      let e = (==_iff (a (suc n)) (b (suc n))).1 (above (suc n) (omega arith) (omega arith)) in
      rw e (max_loop-highest n j a b below ne (λ i p q. above i p (omega arith)))
]

-- The exclusive or, at a place of the arrays, of the values whose shares the servers hold.
abbrev pub xor_at : (j : ℕ) (ks : List ℕ) (inputs0 inputs1 : Shares (ℕ → ℕ)) → ℕ
xor_at j ks inputs0 inputs1 =
    xor_of_shares (λ v. v j) ks (map_of inputs0) (get_in (λ i. 0) (map_of inputs1))

module _ (max_inp : ℕ) (ks : List ℕ) (inputs0 inputs1 : Shares (ℕ → ℕ)) where
  gathered0 : ℕ → ℕ
  gathered0 = (known_loop (xor_array max_inp) ks (map_of inputs0) 0 (λ j. 0)).0.1

  gathered1 : ℕ → ℕ
  gathered1 =
      valid_loop (xor_array max_inp) ks
        (known_loop (xor_array max_inp) ks (map_of inputs0) 0 (λ j. 0)).1
        (get_in (λ j. 0) (map_of inputs1)) (λ j. 0)

  gathered_xor :
      (j : ℕ) → j ≤ max_inp → xor64 (gathered0 j) (gathered1 j) ≡ xor_at j ks inputs0 inputs1
  unfolding gathered0 gathered1
  gathered_xor j h =
      loops-xor (xor_array max_inp) (λ a. a j) (λ v. v j) (xor_array-step max_inp j h) ks
        (map_of inputs0) (get_in (λ i. 0) (map_of inputs1)) 0 (λ i. 0) (λ i. 0)
      ∙ from_zero (λ v. v j) ks (map_of inputs0) (get_in (λ i. 0) (map_of inputs1))

  gathered_eq : (j : ℕ) → j ≤ max_inp → xor_at j ks inputs0 inputs1 ≡ 0 → gathered0 j ≡ gathered1 j
  unfolding gathered0 gathered1
  gathered_eq j h zero_at =
      eq_of_xor 64 _ _
        (known_loop-lt (xor_array max_inp) (λ a. a j) (λ v. v j) (xor_array-step max_inp j h) ks
          (map_of inputs0) 0 (λ i. 0) (omega arith))
        (valid_loop-lt (xor_array max_inp) (λ a. a j) (λ v. v j) (xor_array-step max_inp j h) ks _
          (get_in (λ i. 0) (map_of inputs1)) (λ i. 0) (omega arith))
        (gathered_xor j h ∙ zero_at)

  gathered_ne : (j : ℕ) → j ≤ max_inp → xor_at j ks inputs0 inputs1 ≢ 0 → gathered0 j ≢ gathered1 j
  gathered_ne j h ne e =
      ne (sym (gathered_xor j h) ∙ ap (λ x. xor64 x (gathered1 j)) e ∙ xor_self 64 (gathered1 j))

-- Let `j` be the highest place of the arrays at which the exclusive or of the shared values, over the
-- keys that server 0 knows, is not 0. When server 0 knows at least half of `total_inputs`, MAX
-- answers `j` and MIN answers `max_inp - j`.
pub max_op-highest :
    (order : Shares (ℕ → ℕ) → Shares (ℕ → ℕ)) (total max_inp j : ℕ)
    (inputs0 inputs1 : Shares (ℕ → ℕ))
    → total ≤ 2 * count_known (asked order inputs1) (map_of inputs0)
    → total * (max_inp + 1) < 2 ^ 32
    → j ≤ max_inp
    → xor_at j (asked order inputs1) inputs0 inputs1 ≢ 0
    → ((i : ℕ) → j < i → i ≤ max_inp → xor_at i (asked order inputs1) inputs0 inputs1 ≡ 0)
    → (max_op max_op_type order total max_inp inputs0 inputs1 ≡ ret_ans j)
      × (max_op min_op_type order total max_inp inputs0 inputs1 ≡ ret_ans (max_inp - j))
unfolding max_op max_answer gathered0 gathered1
max_op-highest order total max_inp j inputs0 inputs1 enough words le ne above =
    let ks = asked order inputs1 in
    let t : ltb (2 * count_known ks (map_of inputs0)) total ≡ false = ground arith in
    let fits : leb (2 ^ 32) (total * (max_inp + 1)) ≡ false = ground arith in
    let run =
      max_loop-highest max_inp j (gathered0 max_inp ks inputs0 inputs1)
        (gathered1 max_inp ks inputs0 inputs1) le (gathered_ne max_inp ks inputs0 inputs1 j le ne)
        (λ i p q. gathered_eq max_inp ks inputs0 inputs1 i q (above i p q)) in
    let count = known_loop-known (xor_array max_inp) ks (map_of inputs0) (λ i. 0) in
    (rw (fits, count, t, run) refl, rw (fits, count, t, run) refl)
