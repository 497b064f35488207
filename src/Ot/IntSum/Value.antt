-- ===== src/Ot/IntSum/Value.antt =====
-- The conversion of one value, of the values of a share, and of all shares.
use prio_plus.Base.{
  xor_value, ℕ, zero, suc, ◌+◌, ◌*◌, ◌/◌, ◌%◌, ◌^◌, ◌<◌, ◌≤◌, ◌≡◌, refl, ap, ◌∙◌, sym, Bool, true,
  false, List, [], ◌∷◌, ◌++◌, length, if◌then◌else◌, arith, ◌==◌, Cong, ◌▸◌, cong_of_eq, cong_refl,
  add-Cong, u64, add64, length-append,
}
use native.Mathlib.Nat.{pow-suc}
use mathlib.Core.List.{append_assoc}
use prio_plus.Ot.{
  choose, intsum_sender_bits, choice_bits, receive_bits, reduce, intsum_sender_values, zeros,
  intsum_sender_value, choice_values, receive_values, with_bits,
}
use prio_plus.Ot.IntSum.Step.{word_modulus, Fits, PowFits-of, step_Cong, reduce-lt}

choice-bit : (b : ℕ) → (if b % 2 == 1 then 1 else 0) ≡ b % 2
choice-bit b = ground arith

digit : (a b : ℕ) → (a % 2 + b % 2) % 2 ≡ (a + b) % 2
digit a b = omega arith

pub next_power : (k x y z : ℕ) → z + 2 ^ k * x + 2 ^ suc k * y ≡ z + 2 ^ k * (x + 2 * y)
next_power k x y z = rw (pow-suc 2 k) (omega arith)

module _ (m n : ℕ) (fits : Fits m n) (draws : ℕ → ℕ) (words : (i : ℕ) → draws i < u64) where
  bits-Cong :
      (rounds k a b ret recv idx : ℕ) (rest : List ℕ)
      → k + rounds ≤ n
      → ret < word_modulus m
      → recv < word_modulus m
      → (let out = intsum_sender_bits rounds k a ret idx m draws in
          let got =
            receive_bits rounds recv m (choose out.b0 out.b1 (choice_bits rounds b) ++ rest) in
          Cong (word_modulus m) (out.result + got.0) (ret + recv + 2 ^ k * xor_value rounds a b)
          × (got.1 ≡ rest))
  unfolding intsum_sender_bits choice_bits receive_bits xor_value
  bits-Cong zero k a b ret recv idx rest h hr hv = (cong_of_eq (word_modulus m) (omega arith), refl)
  bits-Cong (suc rounds) k a b ret recv idx rest h hr hv =
      let s =
        step_Cong m k (a % 2) (draws idx) ret recv (b % 2 == 1)
          (PowFits-of m n k fits (omega arith)) (omega arith) (words idx) hr hv in
      let ih =
        bits-Cong rounds (suc k) (a / 2) (b / 2) _ _ (suc idx) rest (omega arith) (reduce-lt m _)
          (reduce-lt m _) in
      (
        ih.0
            ▸ add-Cong s (cong_refl (word_modulus m) (2 ^ suc k * xor_value rounds (a / 2) (b / 2)))
            ▸ cong_of_eq (word_modulus m) (
                rw (choice-bit b, digit a b)
                  (next_power k ((a + b) % 2) (xor_value rounds (a / 2) (b / 2)) (ret + recv))),
        ih.1,
      )

zero_fits : (m : ℕ) → 0 < word_modulus m
zero_fits m = ground arith

length-zeros : (n : ℕ) → length (zeros n) ≡ n
unfolding zeros
length-zeros zero = refl
length-zeros (suc n) = ap suc (length-zeros n)

length-choice_bits : (n b : ℕ) → length (choice_bits n b) ≡ n
unfolding choice_bits
length-choice_bits zero b = refl
length-choice_bits (suc n) b = ap suc (length-choice_bits n (b / 2))

length-sender_bits :
    (n k a ret idx m : ℕ) (draws : ℕ → ℕ)
    → (let out = intsum_sender_bits n k a ret idx m draws in
        (length out.b0 ≡ n) × (length out.b1 ≡ n))
unfolding intsum_sender_bits
length-sender_bits zero k a ret idx m draws = (refl, refl)
length-sender_bits (suc n) k a ret idx m draws =
    let ih = length-sender_bits n (suc k) (a / 2) _ (suc idx) m draws in (ap suc ih.0, ap suc ih.1)

pub choose-append :
    (xs xs' ys ys' : List ℕ) (bs bs' : List Bool)
    → length xs ≡ length bs
    → length ys ≡ length bs
    → choose (xs ++ xs') (ys ++ ys') (bs ++ bs') ≡ choose xs ys bs ++ choose xs' ys' bs'
choose-append [] xs' [] ys' [] bs' h k = refl
choose-append [] xs' (y ∷ ys) ys' [] bs' h k = absurd (omega arith)
choose-append [] xs' ys ys' (b ∷ bs) bs' h k = absurd (omega arith)
choose-append (x ∷ xs) xs' ys ys' [] bs' h k = absurd (omega arith)
choose-append (x ∷ xs) xs' [] ys' (b ∷ bs) bs' h k = absurd (omega arith)
choose-append (x ∷ xs) xs' (y ∷ ys) ys' (b ∷ bs) bs' h k =
    ap (λ l. (if b then y else x) ∷ l)
      (choose-append xs xs' ys ys' bs bs' (omega arith) (omega arith))

-- The words of a skipped value add nothing.
receive-zeros :
    (n b m : ℕ) (rest : List ℕ)
    → receive_bits n 0 m (choose (zeros n) (zeros n) (choice_bits n b) ++ rest) ≡ (0, rest)
unfolding receive_bits zeros choice_bits
receive-zeros zero b m rest = refl
receive-zeros (suc n) b m rest =
    let e : reduce m (add64 0 (if b % 2 == 1 then 0 else 0)) ≡ 0 = ground arith in
    rw e (receive-zeros n (b / 2) m rest)

abbrev pub AllFit : ℕ → List ℕ → Type 0
AllFit m [] = Unit {0}
AllFit m (n ∷ ns) = Fits m n × AllFit m ns

-- The results of the two sides for the values `as` and `bs` of one share, with `ns` bits.
abbrev pub AreConverted : (m : ℕ) (valid : Bool) (ns as' bs ss rs : List ℕ) → Type 0
AreConverted m valid [] [] [] [] [] = Unit {0}
AreConverted m valid (n ∷ ns) (a ∷ as') (b ∷ bs) (s ∷ ss) (r ∷ rs) =
    Cong (word_modulus m) (s + r) (if valid then xor_value n a b else 0)
    × AreConverted m valid ns as' bs ss rs
AreConverted m valid _ _ _ _ _ = ⊥

module _ (m : ℕ) (draws : ℕ → ℕ) (words : (i : ℕ) → draws i < u64) where
  value-Cong :
      (valid : Bool) (n a b idx : ℕ) (rest : List ℕ)
      → Fits m n
      → (let out = intsum_sender_value valid a n idx m draws in
          let got = receive_bits n 0 m (choose out.b0 out.b1 (choice_bits n b) ++ rest) in
          Cong (word_modulus m) (out.result + got.0) (if valid then xor_value n a b else 0)
          × (got.1 ≡ rest))
  unfolding intsum_sender_value
  value-Cong true n a b idx rest fits =
      let h =
        bits-Cong m n fits draws words n 0 a b 0 0 idx rest (omega arith) (zero_fits m)
          (zero_fits m) in
      (h.0 ▸ cong_of_eq (word_modulus m) (omega arith), h.1)
  value-Cong false n a b idx rest fits =
      rw (receive-zeros n b m rest) (cong_of_eq (word_modulus m) refl, refl)

  length-sender_value :
      (valid : Bool) (n a idx : ℕ)
      → (let out = intsum_sender_value valid a n idx m draws in
          (length out.b0 ≡ n) × (length out.b1 ≡ n))
  unfolding intsum_sender_value
  length-sender_value true n a idx = length-sender_bits n 0 a 0 idx m draws
  length-sender_value false n a idx = (length-zeros n, length-zeros n)

  pub length-sender_values :
      (valid : Bool) (ns as' bs : List ℕ) (idx : ℕ)
      → length as' ≡ length ns
      → length bs ≡ length ns
      → (let out = intsum_sender_values (with_bits as' ns) valid idx m draws in
          let choice = choice_values (with_bits bs ns) in
          (length out.b0 ≡ length choice) × (length out.b1 ≡ length choice))
  unfolding intsum_sender_values choice_values
  length-sender_values valid [] [] [] idx ha hb = (refl, refl)
  length-sender_values valid [] (a ∷ as') bs idx ha hb = absurd (omega arith)
  length-sender_values valid [] [] (b ∷ bs) idx ha hb = absurd (omega arith)
  length-sender_values valid (n ∷ ns) [] bs idx ha hb = absurd (omega arith)
  length-sender_values valid (n ∷ ns) (a ∷ as') [] idx ha hb = absurd (omega arith)
  length-sender_values valid (n ∷ ns) (a ∷ as') (b ∷ bs) idx ha hb =
      let now = intsum_sender_value valid a n idx m draws in
      let out = intsum_sender_values (with_bits as' ns) valid (n + idx) m draws in
      let ih = length-sender_values valid ns as' bs (n + idx) (omega arith) (omega arith) in
      let here = length-sender_value valid n a idx in
      let bits = length-choice_bits n b in
      let whole = length-append (choice_bits n b) (choice_values (with_bits bs ns)) in
      (
        omega (arith, length-append now.b0 out.b0, here, ih, bits, whole),
        omega (arith, length-append now.b1 out.b1, here, ih, bits, whole),
      )

  pub values-AreConverted :
      (valid : Bool) (ns as' bs : List ℕ) (idx : ℕ) (rest : List ℕ)
      → AllFit m ns
      → length as' ≡ length ns
      → length bs ≡ length ns
      → (let out = intsum_sender_values (with_bits as' ns) valid idx m draws in
          let got =
            receive_values ns m (choose out.b0 out.b1 (choice_values (with_bits bs ns)) ++ rest) in
          AreConverted m valid ns as' bs out.result got.0 × (got.1 ≡ rest))
  unfolding intsum_sender_values choice_values receive_values
  values-AreConverted valid [] [] [] idx rest fits ha hb = (tt, refl)
  values-AreConverted valid [] (a ∷ as') bs idx rest fits ha hb = absurd (omega arith)
  values-AreConverted valid [] [] (b ∷ bs) idx rest fits ha hb = absurd (omega arith)
  values-AreConverted valid (n ∷ ns) [] bs idx rest fits ha hb = absurd (omega arith)
  values-AreConverted valid (n ∷ ns) (a ∷ as') [] idx rest fits ha hb = absurd (omega arith)
  values-AreConverted valid (n ∷ ns) (a ∷ as') (b ∷ bs) idx rest fits ha hb =
      let now = intsum_sender_value valid a n idx m draws in
      let out = intsum_sender_values (with_bits as' ns) valid (n + idx) m draws in
      let len = length-sender_value valid n a idx in
      let bits = length-choice_bits n b in
      let later = choose out.b0 out.b1 (choice_values (with_bits bs ns)) in
      let here = value-Cong valid n a b idx (later ++ rest) fits.0 in
      let ih =
        values-AreConverted valid ns as' bs (n + idx) rest fits.1 (omega arith) (omega arith) in
      rw
        (
          choose-append now.b0 out.b0 now.b1 out.b1 (choice_bits n b)
              (choice_values (with_bits bs ns)) (len.0 ∙ sym bits) (len.1 ∙ sym bits),
          append_assoc (choose now.b0 now.b1 (choice_bits n b)) later rest,
          here.1,
        )
        ((here.0, ih.0), ih.1)
