-- ===== src/Server/Aggregate/Rows.antt =====
-- `read_rows`: a flat array of rows of one length is read back by rows.
use prio_plus.Base.{
  ℕ, zero, suc, ◌*◌, ◌<◌, ◌≤◌, ◌≡◌, refl, List, [], ◌∷◌, ◌++◌, none, some, length, arith, inl, inr,
  take, drop, length-drop, lt_or_le,
}
use prio_plus.Correlated.OtConversion.{flatten}
use prio_plus.Server.Aggregate.{read_row, read_rows}

-- All rows have `k` entries.
abbrev pub HaveRowLength : {A : Type 0} (k : ℕ) → List (List A) → Type 0
HaveRowLength k [] = Unit {0}
HaveRowLength k (row ∷ rows) = (length row ≡ k) × HaveRowLength k rows

read_row-append : (row rest : List ℕ) → read_row (length row) (row ++ rest) ≡ some (row, rest)
unfolding read_row
read_row-append [] rest = refl
read_row-append (x ∷ row) rest = rw (read_row-append row rest) refl

read_rows-flat :
    (k : ℕ) (rows : List (List ℕ))
    → HaveRowLength k rows
    → read_rows (length rows) k (flatten rows) ≡ some rows
unfolding read_rows flatten
read_rows-flat k [] h = refl
read_rows-flat k (row ∷ rows) h =
    rw (← h.0, read_row-append row (flatten rows), h.0, read_rows-flat k rows h.1) refl

-- A flat array of `n` rows of `k` entries each is read back by rows.
pub read_rows-flatten :
    (n k : ℕ) (rows : List (List ℕ))
    → length rows ≡ n
    → HaveRowLength k rows
    → read_rows n k (flatten rows) ≡ some rows
read_rows-flatten n k rows e h = rw (← e) (read_rows-flat k rows h)

read_row-short : (k : ℕ) (xs : List ℕ) → length xs < k → read_row k xs ≡ none
unfolding read_row
read_row-short zero xs h = absurd (omega (arith, h))
read_row-short (suc k) [] h = refl
read_row-short (suc k) (x ∷ xs) h = rw (read_row-short k xs (omega (arith, h))) refl

read_row-long : (k : ℕ) (xs : List ℕ) → k ≤ length xs → read_row k xs ≡ some (take k xs, drop k xs)
unfolding read_row
read_row-long zero xs h = refl
read_row-long (suc k) [] h = absurd (omega (arith, h))
read_row-long (suc k) (x ∷ xs) h = rw (read_row-long k xs (omega (arith, h))) refl

-- A flat array with fewer entries than the rows need is read past its end.
pub read_rows-short : (n k : ℕ) (xs : List ℕ) → length xs < n * k → read_rows n k xs ≡ none
unfolding read_rows
read_rows-short zero k xs h = absurd (omega (arith, h))
read_rows-short (suc n) k xs h = elim (lt_or_le (length xs) k) [
  | inl short ↦ rw (read_row-short k xs short) refl
  | inr long ↦
      let left : length (drop k xs) < n * k = omega (arith, length-drop k xs, h) in
      rw (read_row-long k xs long, read_rows-short n k (drop k xs) left) refl
]
