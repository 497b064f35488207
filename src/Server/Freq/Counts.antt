-- ===== src/Server/Freq/Counts.antt =====
-- `freq_op`: what the parities and the sums of the rows say of the rows that are shared.
use prio_plus.Base.{
  ℕ, zero, suc, ◌+◌, ◌%◌, ◌≡◌, refl, ◌∙◌, sym, Bool, true, false, List, [], ◌∷◌, ◌++◌, map, arith,
  length, xor, bit, replicate,
}
use prio_plus.Correlated.OtConversion.{flatten, xor_row}
use prio_plus.Server.Aggregate.Rows.{HaveRowLength}
use prio_plus.Server.Aggregate.Totals.{xor_list}
use prio_plus.Server.Freq.{parity_loop, row_parities}
use prio_plus.Server.Freq.Rows.{xor_value-bit}

-- Where two rows of shares differ, there is a 1 in the shared row.
abbrev pub diff_row : (row0 row1 : List Bool) → List ℕ
diff_row (a ∷ row0) (b ∷ row1) = bit (xor a b) ∷ diff_row row0 row1
diff_row _ _ = []

abbrev pub diff_rows : (x0 x1 : List (List Bool)) → List (List ℕ)
diff_rows (row0 ∷ x0) (row1 ∷ x1) = diff_row row0 row1 ∷ diff_rows x0 x1
diff_rows _ _ = []

abbrev pub total_of : List ℕ → ℕ
total_of [] = 0
total_of (x ∷ xs) = x + total_of xs

abbrev pub grand_total : List (List ℕ) → ℕ
grand_total [] = 0
grand_total (row ∷ rows) = total_of row + grand_total rows

abbrev pub count_true : List Bool → ℕ
count_true [] = 0
count_true (b ∷ bs) = bit b + count_true bs

diff_row-xor_row :
    (k : ℕ) (row0 row1 : List Bool)
    → length row0 ≡ k
    → xor_row (replicate k 1) (map bit row0) (map bit row1) ≡ diff_row row0 row1
diff_row-xor_row zero [] row1 e = refl
diff_row-xor_row (suc k) (a ∷ row0) [] e = refl
diff_row-xor_row (suc k) (a ∷ row0) (b ∷ row1) e =
    rw (xor_value-bit a b, diff_row-xor_row k row0 row1 (omega (arith, e))) refl
diff_row-xor_row zero (a ∷ row0) row1 e = absurd (omega (arith, e))
diff_row-xor_row (suc k) [] row1 e = absurd (omega (arith, e))

pub xor_list-diff_rows :
    (k : ℕ) (x0 x1 : List (List Bool))
    → HaveRowLength k x0
    → xor_list (replicate k 1) (map (map bit) x0) (map (map bit) x1) ≡ diff_rows x0 x1
xor_list-diff_rows k [] x1 h = refl
xor_list-diff_rows k (row0 ∷ x0) [] h = refl
xor_list-diff_rows k (row0 ∷ x0) (row1 ∷ x1) h =
    rw (diff_row-xor_row k row0 row1 h.0, xor_list-diff_rows k x0 x1 h.1) refl

parity_step : (p b : Bool) (n : ℕ) → (bit (xor p b) + n) % 2 ≡ (bit p + (bit b + n)) % 2
unfolding xor
parity_step p b n = ground arith

pub bit-xor : (a b : Bool) → bit (xor a b) ≡ (bit a + bit b) % 2
unfolding xor
bit-xor a b = ground arith

pub parity_loop-count :
    (p : Bool) (bs : List Bool) → bit (parity_loop p bs) ≡ (bit p + count_true bs) % 2
unfolding parity_loop
parity_loop-count false [] = refl
parity_loop-count true [] = refl
parity_loop-count p (b ∷ bs) = parity_loop-count (xor p b) bs ∙ parity_step p b (count_true bs)

pub count-append : (xs ys : List Bool) → count_true (xs ++ ys) ≡ count_true xs + count_true ys
count-append [] ys = omega arith
count-append (x ∷ xs) ys = omega (arith, count-append xs ys)

parities-flatten :
    (x : List (List Bool)) → count_true (row_parities x) % 2 ≡ count_true (flatten x) % 2
unfolding row_parities flatten
parities-flatten [] = refl
parities-flatten (row ∷ x) =
    omega (arith, parities-flatten x, parity_loop-count false row, count-append row (flatten x))

diff-parity :
    (row0 row1 : List Bool)
    → length row0 ≡ length row1
    → total_of (diff_row row0 row1) % 2 ≡ (count_true row0 + count_true row1) % 2
diff-parity [] [] e = refl
diff-parity [] (b ∷ row1) e = absurd (omega (arith, e))
diff-parity (a ∷ row0) [] e = absurd (omega (arith, e))
diff-parity (a ∷ row0) (b ∷ row1) e =
    let ih = diff-parity row0 row1 (omega (arith, e)) in
    let here = parity_step a b 0 in omega (arith, ih, here)

pub grand-parity :
    (k : ℕ) (x0 x1 : List (List Bool))
    → length x0 ≡ length x1
    → HaveRowLength k x0
    → HaveRowLength k x1
    → grand_total (diff_rows x0 x1) % 2 ≡ (count_true (flatten x0) + count_true (flatten x1)) % 2
unfolding flatten
grand-parity k [] [] e h0 h1 = refl
grand-parity k [] (row1 ∷ x1) e h0 h1 = absurd (omega (arith, e))
grand-parity k (row0 ∷ x0) [] e h0 h1 = absurd (omega (arith, e))
grand-parity k (row0 ∷ x0) (row1 ∷ x1) e h0 h1 = omega (
  arith,
  grand-parity k x0 x1 (omega (arith, e)) h0.1 h1.1,
  diff-parity row0 row1 (h0.0 ∙ sym h1.0),
  count-append row0 (flatten x0),
  count-append row1 (flatten x1),
)

-- The parities that the two servers compare tell whether the shared rows have an odd total.
pub parities-total :
    (k : ℕ) (x0 x1 : List (List Bool))
    → length x0 ≡ length x1
    → HaveRowLength k x0
    → HaveRowLength k x1
    → bit (xor (parity_loop false (row_parities x0)) (parity_loop false (flatten x1)))
      ≡ grand_total (diff_rows x0 x1) % 2
parities-total k x0 x1 e h0 h1 =
    let p = parity_loop false (row_parities x0) in
    let q = parity_loop false (flatten x1) in
    let both = bit-xor p q in
    omega (
      arith,
      both,
      parity_loop-count false (row_parities x0),
      parity_loop-count false (flatten x1),
      parities-flatten x0,
      grand-parity k x0 x1 e h0 h1,
    )
