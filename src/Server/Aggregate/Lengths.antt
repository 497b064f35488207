-- ===== src/Server/Aggregate/Lengths.antt =====
-- `share_convert`: its results have as many rows as the shares, and a value for each number of bits,
-- whatever the modulus.
use prio_plus.Base.{ℕ, zero, suc, ◌+◌, ◌≡◌, refl, ap, Bool, true, List, [], ◌∷◌, length, arith}
use prio_plus.Ot.{
  intsum_sender_values, intsum_sender_loop, intsum_ot_sender, receive_bits, receive_values,
  receive_shares, intsum_ot_receiver, with_bits,
}
use prio_plus.Correlated.OtConversion.{all_valid}
use prio_plus.Server.Aggregate.Rows.{HaveRowLength}

length-values :
    (valid : Bool) (ns row : List ℕ) (idx m : ℕ) (draws : ℕ → ℕ)
    → length row ≡ length ns
    → length (intsum_sender_values (with_bits row ns) valid idx m draws).result ≡ length ns
unfolding intsum_sender_values
length-values valid [] [] idx m draws h = refl
length-values valid [] (a ∷ row) idx m draws h = absurd (omega (arith, h))
length-values valid (n ∷ ns) [] idx m draws h = absurd (omega (arith, h))
length-values valid (n ∷ ns) (a ∷ row) idx m draws h =
    ap suc (length-values valid ns row (n + idx) m draws (omega (arith, h)))

sender_rows :
    (ns : List ℕ) (rows : List (List ℕ)) (idx m : ℕ) (draws : ℕ → ℕ)
    → HaveRowLength (length ns) rows
    → (let out = intsum_sender_loop (all_valid rows) ns idx m draws in
        (length out.result ≡ length rows) × HaveRowLength (length ns) out.result)
unfolding intsum_sender_loop
sender_rows ns [] idx m draws h = (refl, tt)
sender_rows ns (row ∷ rows) idx m draws h =
    let now = intsum_sender_values (with_bits row ns) true idx m draws in
    let ih = sender_rows ns rows (length now.b0 + idx) m draws h.1 in
    (ap suc ih.0, (length-values true ns row idx m draws h.0, ih.1))

-- The sender's rows.
pub intsum_ot_sender-rows :
    (ns : List ℕ) (rows : List (List ℕ)) (m : ℕ) (draws : ℕ → ℕ)
    → HaveRowLength (length ns) rows
    → (let out = intsum_ot_sender (all_valid rows) ns m draws in
        (length out.result ≡ length rows) × HaveRowLength (length ns) out.result)
unfolding intsum_ot_sender
intsum_ot_sender-rows ns rows m draws h = sender_rows ns rows 0 m draws h

length-receive_values :
    (ns : List ℕ) (m : ℕ) (r : List ℕ) → length (receive_values ns m r).0 ≡ length ns
unfolding receive_values
length-receive_values [] m r = refl
length-receive_values (n ∷ ns) m r = ap suc (length-receive_values ns m (receive_bits n 0 m r).1)

receive_rows :
    (ns : List ℕ) (n m : ℕ) (r : List ℕ)
    → (let got = receive_shares n ns m r in (length got ≡ n) × HaveRowLength (length ns) got)
unfolding receive_shares
receive_rows ns zero m r = (refl, tt)
receive_rows ns (suc n) m r =
    let ih = receive_rows ns n m (receive_values ns m r).1 in
    (ap suc ih.0, (length-receive_values ns m r, ih.1))

-- The receiver's rows.
pub intsum_ot_receiver-rows :
    (ns : List ℕ) (n m : ℕ) (r : List ℕ)
    → (let got = intsum_ot_receiver r n ns m in (length got ≡ n) × HaveRowLength (length ns) got)
unfolding intsum_ot_receiver
intsum_ot_receiver-rows ns n m r = receive_rows ns n m r
