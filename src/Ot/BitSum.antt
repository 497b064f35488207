-- ===== src/Ot/BitSum.antt =====
-- The two sums of bits, at the modulus 2 ^ 64 that the servers use.
use prio_plus.Base.{
  ℕ, suc, ◌-◌, ◌+◌, ◌*◌, ◌<◌, ◌≡◌, refl, ap, Bool, true, false, List, [], ◌∷◌, xor, bit, length,
  if◌then◌else◌, arith, Cong, ◌▸◌, cong_of_eq, cong_refl, add-Cong, u64, add64, sub64,
}
use prio_plus.Ot.{
  Emp, ot_blocks, ot_transfer, choose, bitsum_sender_loop, bitsum_ot_sender, bitsum_receiver_loop,
  bitsum_ot_receiver,
}
use mathlib.Core.List.{map}

-- The number of valid places whose two bits differ.
abbrev pub valid_xor_sum : List (Bool × Bool) → List Bool → ℕ
valid_xor_sum ((s, v) ∷ ss) (t ∷ ts) = (if v then bit (xor s t) else 0) + valid_xor_sum ss ts
valid_xor_sum _ _ = 0

module _ (E : Emp) where
  choose-blocks :
      (xs ys : List ℕ) (bs : List Bool)
      → map E.low_word (choose (ot_blocks E xs) (ot_blocks E ys) bs) ≡ choose xs ys bs
  unfolding ot_blocks
  choose-blocks [] ys bs = refl
  choose-blocks (x ∷ xs) [] bs = refl
  choose-blocks (x ∷ xs) (y ∷ ys) [] = refl
  choose-blocks (x ∷ xs) (y ∷ ys) (true ∷ bs) =
      rw (E.low_word_lem 0 y) (ap (λ l. y ∷ l) (choose-blocks xs ys bs))
  choose-blocks (x ∷ xs) (y ∷ ys) (false ∷ bs) =
      rw (E.low_word_lem 0 x) (ap (λ l. x ∷ l) (choose-blocks xs ys bs))

  -- `OT_Wrapper` moves words unchanged: the receiver gets, at each place, the word of its choice.
  pub ot_transfer_lem : (xs ys : List ℕ) (bs : List Bool) → ot_transfer E xs ys bs ≡ choose xs ys bs
  unfolding ot_transfer
  ot_transfer_lem xs ys bs = rw (E.transfer_lem _ _ bs) (choose-blocks xs ys bs)

step :
    (d sum recv : ℕ) (s v t : Bool)
    → d < u64
    → (let sum' = add64 sum (add64 (add64 (sub64 (u64 - 1) d) 1) (bit s)) in
        let b1 = sub64 (add64 d 1) (2 * bit s) in
        let r = if t then (if v then b1 else 0) else (if v then d else 0) in
        Cong u64
          ((if v then sum' else sum) + add64 recv r)
          (sum + recv + (if v then bit (xor s t) else 0)))
unfolding xor
step d sum recv true true true h = record { same = omega arith }
step d sum recv true true false h = record { same = omega arith }
step d sum recv true false true h = record { same = omega arith }
step d sum recv true false false h = record { same = omega arith }
step d sum recv false true true h = record { same = omega arith }
step d sum recv false true false h = record { same = omega arith }
step d sum recv false false true h = record { same = omega arith }
step d sum recv false false false h = record { same = omega arith }

loop-Cong :
    (ss : List (Bool × Bool)) (ts : List Bool) (draws : ℕ → ℕ) (i sum recv : ℕ)
    → length ss ≡ length ts
    → ((j : ℕ) → draws j < u64)
    → (let out = bitsum_sender_loop ss 0 draws i sum in
        Cong u64
          (out.result + bitsum_receiver_loop (choose out.b0 out.b1 ts) 0 recv)
          (sum + recv + valid_xor_sum ss ts))
unfolding bitsum_sender_loop bitsum_receiver_loop
loop-Cong [] [] draws i sum recv h small = cong_of_eq u64 (omega arith)
loop-Cong [] (t ∷ ts) draws i sum recv h small = absurd (omega arith)
loop-Cong (s ∷ ss) [] draws i sum recv h small = absurd (omega arith)
loop-Cong ((s, v) ∷ ss) (t ∷ ts) draws i sum recv h small =
    loop-Cong ss ts draws (suc i) _ _ (omega arith) small
    ▸ add-Cong (step (draws i) sum recv s v t (small i)) (cong_refl u64 (valid_xor_sum ss ts))
    ▸ cong_of_eq u64 (omega arith)

-- With the default modulus, the sum of server 0, which knows the validity, and the sum that server
-- 1 makes of what it receives add up to the number of valid ones, modulo 2 ^ 64.
pub bitsum_ot-Cong :
    (E : Emp) (shares0 : List (Bool × Bool)) (shares1 : List Bool) (draws : ℕ → ℕ)
    → length shares0 ≡ length shares1
    → ((j : ℕ) → draws j < u64)
    → (let out = bitsum_ot_sender shares0 0 draws in
        Cong u64
          (out.result + bitsum_ot_receiver (ot_transfer E out.b0 out.b1 shares1) 0)
          (valid_xor_sum shares0 shares1))
unfolding bitsum_ot_sender bitsum_ot_receiver
bitsum_ot-Cong E shares0 shares1 draws h small =
    rw (ot_transfer_lem E _ _ shares1)
      (loop-Cong shares0 shares1 draws 0 0 0 h small ▸ cong_of_eq u64 (omega arith))
