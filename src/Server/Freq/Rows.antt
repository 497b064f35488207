-- ===== src/Server/Freq/Rows.antt =====
-- `freq_op`: the flat results of `b2a_daBit_single`, by rows.
use prio_plus.Base.{
  ℕ, zero, suc, ◌≡◌, refl, Bool, true, false, List, [], ◌∷◌, ◌++◌, map, some, arith, length, xor,
  bit, replicate, xor_value,
}
use prio_plus.Field.{Field}
use prio_plus.Ot.IntSum.Value.{AreConverted}
use prio_plus.Ot.IntSum.Shares.{AllConverted}
use prio_plus.Correlated.Conversion.{AreSummed}
use prio_plus.Correlated.OtConversion.{flatten, all_valid}
use prio_plus.Server.Aggregate.{read_row, read_rows}
use prio_plus.Server.Aggregate.Rows.{HaveRowLength}
use prio_plus.Server.Aggregate.Totals.{word_modulus-modulus}

pub xor_value-bit : (a b : Bool) → xor_value 1 (bit a) (bit b) ≡ bit (xor a b)
unfolding xor_value xor
xor_value-bit false false = refl
xor_value-bit false true = refl
xor_value-bit true false = refl
xor_value-bit true true = refl

module _ (K : Field) where
  open K use {modulus}

  -- The rows of the two servers' shares add up to the rows of bits.
  abbrev pub AllSummed : (x0 x1 : List (List Bool)) (p q : List (List ℕ)) → Type 0
  AllSummed [] [] [] [] = Unit {0}
  AllSummed (row0 ∷ x0) (row1 ∷ x1) (p ∷ ps) (q ∷ qs) =
      AreSummed K row0 row1 p q × AllSummed x0 x1 ps qs
  AllSummed _ _ _ _ = ⊥

  record FirstRow (k : ℕ) (row0 row1 rest0 rest1 : List Bool) (p q : List ℕ) : Type 0 where
    p_row : List ℕ
    p_rest : List ℕ
    q_row : List ℕ
    q_rest : List ℕ
    p_read : read_row k p ≡ some (p_row, p_rest)
    q_read : read_row k q ≡ some (q_row, q_rest)
    summed : AreSummed K row0 row1 p_row q_row
    rest : AreSummed K rest0 rest1 p_rest q_rest

  first_row :
      (k : ℕ) (row0 row1 rest0 rest1 : List Bool) (p q : List ℕ)
      → length row0 ≡ k
      → length row1 ≡ k
      → AreSummed K (row0 ++ rest0) (row1 ++ rest1) p q
      → FirstRow k row0 row1 rest0 rest1 p q
  unfolding read_row
  first_row zero [] [] rest0 rest1 p q e0 e1 h = record {
    p_row = [];
    p_rest = p;
    q_row = [];
    q_rest = q;
    p_read = refl;
    q_read = refl;
    summed = tt;
    rest = h;
  }
  first_row (suc k) (a ∷ row0) (b ∷ row1) rest0 rest1 (x ∷ p) (y ∷ q) e0 e1 h =
      let r = first_row k row0 row1 rest0 rest1 p q (omega (arith, e0)) (omega (arith, e1)) h.1 in
      record {
        p_row = x ∷ r.p_row;
        p_rest = r.p_rest;
        q_row = y ∷ r.q_row;
        q_rest = r.q_rest;
        p_read = rw r.p_read refl;
        q_read = rw r.q_read refl;
        summed = (h.0, r.summed);
        rest = r.rest;
      }
  first_row zero (a ∷ row0) row1 rest0 rest1 p q e0 e1 h = absurd (omega (arith, e0))
  first_row zero [] (b ∷ row1) rest0 rest1 p q e0 e1 h = absurd (omega (arith, e1))
  first_row (suc k) [] row1 rest0 rest1 p q e0 e1 h = absurd (omega (arith, e0))
  first_row (suc k) (a ∷ row0) [] rest0 rest1 p q e0 e1 h = absurd (omega (arith, e1))
  first_row (suc k) (a ∷ row0) (b ∷ row1) rest0 rest1 [] q e0 e1 h = absurd h
  first_row (suc k) (a ∷ row0) (b ∷ row1) rest0 rest1 (x ∷ p) [] e0 e1 h = absurd h

  pub record RowsRead (n k : ℕ) (x0 x1 : List (List Bool)) (p q : List ℕ) : Type 0 where
    pub p_rows : List (List ℕ)
    pub q_rows : List (List ℕ)
    pub p_read : read_rows n k p ≡ some p_rows
    pub q_read : read_rows n k q ≡ some q_rows
    pub summed : AllSummed x0 x1 p_rows q_rows

  pub rows-RowsRead :
      (n k : ℕ) (x0 x1 : List (List Bool)) (p q : List ℕ)
      → length x0 ≡ n
      → length x1 ≡ n
      → HaveRowLength k x0
      → HaveRowLength k x1
      → AreSummed K (flatten x0) (flatten x1) p q
      → RowsRead n k x0 x1 p q
  unfolding read_rows flatten
  rows-RowsRead zero k [] [] p q e0 e1 h0 h1 h = record {
    p_rows = [];
    q_rows = [];
    p_read = refl;
    q_read = refl;
    summed = tt;
  }
  rows-RowsRead (suc n) k (row0 ∷ x0) (row1 ∷ x1) p q e0 e1 h0 h1 h =
      let r = first_row k row0 row1 (flatten x0) (flatten x1) p q h0.0 h1.0 h in
      let ih =
        rows-RowsRead n k x0 x1 r.p_rest r.q_rest (omega (arith, e0)) (omega (arith, e1)) h0.1 h1.1
          r.rest in
      record {
        p_rows = r.p_row ∷ ih.p_rows;
        q_rows = r.q_row ∷ ih.q_rows;
        p_read = rw (r.p_read, ih.p_read) refl;
        q_read = rw (r.q_read, ih.q_read) refl;
        summed = (r.summed, ih.summed);
      }
  rows-RowsRead zero k (row0 ∷ x0) x1 p q e0 e1 h0 h1 h = absurd (omega (arith, e0))
  rows-RowsRead zero k [] (row1 ∷ x1) p q e0 e1 h0 h1 h = absurd (omega (arith, e1))
  rows-RowsRead (suc n) k [] x1 p q e0 e1 h0 h1 h = absurd (omega (arith, e0))
  rows-RowsRead (suc n) k (row0 ∷ x0) [] p q e0 e1 h0 h1 h = absurd (omega (arith, e1))

  bits-AreConverted :
      (k : ℕ) (row0 row1 : List Bool) (p q : List ℕ)
      → length row0 ≡ k
      → AreSummed K row0 row1 p q
      → AreConverted modulus true (replicate k 1) (map bit row0) (map bit row1) p q
  bits-AreConverted zero [] [] [] [] e h = tt
  bits-AreConverted (suc k) (a ∷ row0) (b ∷ row1) (x ∷ p) (y ∷ q) e h = (
    rw (word_modulus-modulus K, xor_value-bit a b) h.0,
    bits-AreConverted k row0 row1 p q (omega (arith, e)) h.1,
  )
  bits-AreConverted zero (a ∷ row0) row1 p q e h = absurd (omega (arith, e))
  bits-AreConverted (suc k) [] row1 p q e h = absurd (omega (arith, e))
  bits-AreConverted zero [] row1 p q e h = absurd h
  bits-AreConverted (suc k) (a ∷ row0) row1 p q e h = absurd h

  -- Bits that are converted are integers of one bit that are converted.
  pub rows-AllConverted :
      (k : ℕ) (x0 x1 : List (List Bool)) (p q : List (List ℕ))
      → HaveRowLength k x0
      → AllSummed x0 x1 p q
      → AllConverted modulus (replicate k 1) (all_valid (map (map bit) x0)) (map (map bit) x1) p q
  rows-AllConverted k [] [] [] [] e h = tt
  rows-AllConverted k (row0 ∷ x0) (row1 ∷ x1) (p ∷ ps) (q ∷ qs) e h =
      (bits-AreConverted k row0 row1 p q e.0 h.0, rows-AllConverted k x0 x1 ps qs e.1 h.1)
  rows-AllConverted k x0 x1 p q e h = absurd h
