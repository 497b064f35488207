-- ===== src/Server/Freq/Sums.antt =====
-- `freq_op`: the checks of the parities and of the sums.
use prio_plus.Base.{
  ℕ, suc, ◌+◌, ◌%◌, ◌≡◌, refl, Bool, true, false, List, [], ◌∷◌, arith, length, xor, Cong, ◌▸◌,
  cong_of_eq, cong_refl, add-Cong, ◌&&◌, ◌==◌, replicate, if◌then◌else◌,
}
use prio_plus.Field.{Field, add_mod, add_mod_lem, add_mod-Cong}
use prio_plus.Correlated.Conversion.{AreSummed}
use prio_plus.Correlated.OtConversion.{flatten}
use prio_plus.Server.Aggregate.Rows.{HaveRowLength}
use prio_plus.Server.Freq.{
  parity_loop, row_parities, sum_loop, row_sums, batch_check, single_checks, freq_valid,
}
use prio_plus.Server.Freq.Rows.{AllSummed}
use prio_plus.Server.Freq.Counts.{diff_row, diff_rows, total_of, grand_total, parities-total}

module _ (K : Field) where
  open K use {modulus}

  pub sum_loop-Cong : (sum : ℕ) (xs : List ℕ) → Cong modulus (sum_loop K sum xs) (sum + total_of xs)
  unfolding sum_loop
  sum_loop-Cong sum [] = cong_of_eq modulus (omega arith)
  sum_loop-Cong sum (x ∷ xs) =
      sum_loop-Cong (add_mod K sum x) xs
      ▸ add-Cong (add_mod-Cong K sum x) (cong_refl modulus (total_of xs))
      ▸ cong_of_eq modulus (omega arith)

  pub total-Cong :
      (row0 row1 : List Bool) (p q : List ℕ)
      → AreSummed K row0 row1 p q
      → Cong modulus (total_of p + total_of q) (total_of (diff_row row0 row1))
  total-Cong [] [] [] [] h = cong_of_eq modulus refl
  total-Cong (a ∷ row0) (b ∷ row1) (x ∷ p) (y ∷ q) h =
      cong_of_eq modulus (omega arith) ▸ add-Cong h.0 (total-Cong row0 row1 p q h.1)
  total-Cong row0 row1 p q h = absurd h

  row-Cong :
      (row0 row1 : List Bool) (p q : List ℕ)
      → AreSummed K row0 row1 p q
      → Cong modulus (sum_loop K 0 p + sum_loop K 0 q) (total_of (diff_row row0 row1))
  row-Cong row0 row1 p q h =
      add-Cong (sum_loop-Cong 0 p) (sum_loop-Cong 0 q)
      ▸ cong_of_eq modulus (omega arith)
      ▸ total-Cong row0 row1 p q h

  rows-Cong :
      (x0 x1 : List (List Bool)) (p q : List (List ℕ))
      → AllSummed K x0 x1 p q
      → Cong modulus
          (total_of (row_sums K p) + total_of (row_sums K q))
          (grand_total (diff_rows x0 x1))
  unfolding row_sums
  rows-Cong [] [] [] [] h = cong_of_eq modulus refl
  rows-Cong (row0 ∷ x0) (row1 ∷ x1) (p ∷ ps) (q ∷ qs) h =
      cong_of_eq modulus (omega arith)
      ▸ add-Cong (row-Cong row0 row1 p q h.0) (rows-Cong x0 x1 ps qs h.1)
  rows-Cong x0 x1 p q h = absurd h

  sums-Cong :
      (x0 x1 : List (List Bool)) (p q : List (List ℕ))
      → AllSummed K x0 x1 p q
      → Cong modulus
          (sum_loop K 0 (row_sums K p) + sum_loop K 0 (row_sums K q))
          (grand_total (diff_rows x0 x1))
  sums-Cong x0 x1 p q h =
      add-Cong (sum_loop-Cong 0 (row_sums K p)) (sum_loop-Cong 0 (row_sums K q))
      ▸ cong_of_eq modulus (omega arith)
      ▸ rows-Cong x0 x1 p q h

  -- The batch check looks at the total of the shared rows, modulo 2 and modulo `Int_Modulus`.
  pub batch_check-total :
      (k total : ℕ) (x0 x1 : List (List Bool)) (p q : List (List ℕ))
      → length x0 ≡ length x1
      → HaveRowLength k x0
      → HaveRowLength k x1
      → AllSummed K x0 x1 p q
      → batch_check K total
          (parity_loop false (row_parities x0))
          (parity_loop false (flatten x1))
          (sum_loop K 0 (row_sums K p))
          (sum_loop K 0 (row_sums K q))
        ≡ ((grand_total (diff_rows x0 x1) % 2 == total % 2)
            && (grand_total (diff_rows x0 x1) % modulus == total))
  unfolding batch_check
  batch_check-total k total x0 x1 p q e h0 h1 h =
      rw
        (
          parities-total k x0 x1 e h0 h1,
          add_mod_lem K (sum_loop K 0 (row_sums K p)) (sum_loop K 0 (row_sums K q)),
          (sums-Cong x0 x1 p q h).same,
        )
        refl

  -- The verdict on each input by itself.
  abbrev pub verdicts :
      (i : ℕ) (known : List Bool) (parity_other : ℕ → Bool) (x0 x1 : List (List Bool)) → List Bool
  verdicts i (v ∷ known) parity_other (row0 ∷ x0) (row1 ∷ x1) =
      (v
        && xor (parity_loop false row0) (parity_other i)
        && (total_of (diff_row row0 row1) % modulus == 1))
      ∷ verdicts (suc i) known parity_other x0 x1
  verdicts i _ parity_other _ _ = []

  single_checks-verdicts :
      (i : ℕ) (known : List Bool) (other : ℕ → Bool) (x0 x1 : List (List Bool))
      (p q : List (List ℕ))
      → AllSummed K x0 x1 p q
      → single_checks K i known (row_parities x0) other (row_sums K p) (row_sums K q)
        ≡ verdicts i known other x0 x1
  unfolding single_checks row_parities row_sums
  single_checks-verdicts i [] other [] [] [] [] h = refl
  single_checks-verdicts i (v ∷ known) other [] [] [] [] h = refl
  single_checks-verdicts i [] other (row0 ∷ x0) (row1 ∷ x1) (p ∷ ps) (q ∷ qs) h = refl
  single_checks-verdicts i (v ∷ known) other (row0 ∷ x0) (row1 ∷ x1) (p ∷ ps) (q ∷ qs) h =
      rw
        (
          add_mod_lem K (sum_loop K 0 p) (sum_loop K 0 q),
          (row-Cong row0 row1 p q h.0).same,
          single_checks-verdicts (suc i) known other x0 x1 ps qs h.1,
        )
        refl
  single_checks-verdicts i known other x0 x1 p q h = absurd h

  -- Which inputs count, said of the shared rows alone.
  abbrev pub counted :
      (total_inputs : ℕ) (known : List Bool) (unset : ℕ → Bool) (x0 x1 : List (List Bool))
      → List Bool
  counted total_inputs known unset x0 x1 =
      let total = grand_total (diff_rows x0 x1) in
      if (total % 2 == total_inputs % 2) && (total % modulus == total_inputs)
      then replicate (length known) true
      else verdicts 0 known unset x0 x1

  pub freq_valid-counted :
      (k total_inputs : ℕ) (known : List Bool) (unset : ℕ → Bool) (x0 x1 : List (List Bool))
      (p q : List (List ℕ))
      → length x0 ≡ length x1
      → HaveRowLength k x0
      → HaveRowLength k x1
      → AllSummed K x0 x1 p q
      → freq_valid K total_inputs known unset x0 x1 p q ≡ counted total_inputs known unset x0 x1
  unfolding freq_valid
  freq_valid-counted k total known unset x0 x1 p q e h0 h1 h =
      rw
        (
          batch_check-total k total x0 x1 p q e h0 h1 h,
          single_checks-verdicts 0 known unset x0 x1 p q h,
        )
        refl
