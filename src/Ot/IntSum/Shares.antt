-- ===== src/Ot/IntSum/Shares.antt =====
-- All shares: what `intsum_ot_sender` and `intsum_ot_receiver` return together.
use prio_plus.Base.{ℕ, ◌+◌, ◌<◌, ◌≡◌, Bool, List, [], ◌∷◌, ◌++◌, length, u64}
use mathlib.Core.List.{append_assoc, append-nil}
use prio_plus.Ot.{
  Emp, ot_transfer, choose, intsum_sender_values, intsum_sender_loop, intsum_ot_sender,
  choice_values, choice_shares, receive_shares, intsum_ot_receiver, with_bits,
}
use prio_plus.Ot.BitSum.{ot_transfer_lem}
use prio_plus.Ot.IntSum.Value.{
  AllFit, AreConverted, choose-append, length-sender_values, values-AreConverted,
}

-- Each share has as many values as there are numbers of bits.
abbrev pub AllLong : ℕ → List (List ℕ × Bool) → List (List ℕ) → Type 0
AllLong n [] [] = Unit {0}
AllLong n ((as', v) ∷ ss) (bs ∷ ts) = (length as' ≡ n) × (length bs ≡ n) × AllLong n ss ts
AllLong n _ _ = ⊥

abbrev pub AllConverted :
    (m : ℕ) (ns : List ℕ) → List (List ℕ × Bool) → (other sent got : List (List ℕ)) → Type 0
AllConverted m ns [] [] [] [] = Unit {0}
AllConverted m ns ((as', v) ∷ ss) (bs ∷ ts) (s ∷ sent) (r ∷ got) =
    AreConverted m v ns as' bs s r × AllConverted m ns ss ts sent got
AllConverted m ns _ _ _ _ = ⊥

module _ (m : ℕ) (draws : ℕ → ℕ) (words : (i : ℕ) → draws i < u64) where
  shares-AllConverted :
      (ns : List ℕ) (ss : List (List ℕ × Bool)) (ts : List (List ℕ)) (idx : ℕ) (rest : List ℕ)
      → AllFit m ns
      → AllLong (length ns) ss ts
      → (let out = intsum_sender_loop ss ns idx m draws in
          AllConverted m ns ss ts out.result
            (receive_shares (length ss) ns m (choose out.b0 out.b1 (choice_shares ts ns) ++ rest)))
  unfolding intsum_sender_loop choice_shares receive_shares
  shares-AllConverted ns [] [] idx rest fits long = tt
  shares-AllConverted ns [] (t ∷ ts) idx rest fits long = absurd long
  shares-AllConverted ns (s ∷ ss) [] idx rest fits long = absurd long
  shares-AllConverted ns ((as', v) ∷ ss) (bs ∷ ts) idx rest fits long =
      let now = intsum_sender_values (with_bits as' ns) v idx m draws in
      let out = intsum_sender_loop ss ns (length now.b0 + idx) m draws in
      let len = length-sender_values m draws words v ns as' bs idx long.0 long.1 in
      let bits = choice_values (with_bits bs ns) in
      let later = choose out.b0 out.b1 (choice_shares ts ns) in
      let here =
        values-AreConverted m draws words v ns as' bs idx (later ++ rest) fits long.0 long.1 in
      let ih = shares-AllConverted ns ss ts (length now.b0 + idx) rest fits long.2 in
      rw
        (
          choose-append now.b0 out.b0 now.b1 out.b1 bits (choice_shares ts ns) len.0 len.1,
          append_assoc (choose now.b0 now.b1 bits) later rest,
          here.1,
        )
        (here.0, ih)

  -- For every number of shares and of values, where the values' numbers of bits fit the modulus: the
  -- results of the sender and of the receiver add up, value by value and modulo `mod` (2 ^ 64 for
  -- 0), to the exclusive or of the two shares' bits, and to 0 for a share that is not valid.
  pub intsum_ot-AllConverted :
      (E : Emp) (ns : List ℕ) (ss : List (List ℕ × Bool)) (ts : List (List ℕ))
      → AllFit m ns
      → AllLong (length ns) ss ts
      → (let out = intsum_ot_sender ss ns m draws in
          let r = ot_transfer E out.b0 out.b1 (choice_shares ts ns) in
          AllConverted m ns ss ts out.result (intsum_ot_receiver r (length ss) ns m))
  unfolding intsum_ot_sender intsum_ot_receiver
  intsum_ot-AllConverted E ns ss ts fits long =
      rw
        (
          ot_transfer_lem E _ _ (choice_shares ts ns),
          ← append-nil (choose _ _ (choice_shares ts ns)),
        )
        (shares-AllConverted ns ss ts 0 [] fits long)
