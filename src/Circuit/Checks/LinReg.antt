-- ===== src/Circuit/Checks/LinReg.antt =====
-- The circuit of `CheckLinReg` for every degree: each quadratic field is the product of its two
-- inputs.
use prio_plus.Base.{ℕ, zero, suc, ◌+◌, ◌*◌, ◌-◌, ◌/◌, ◌<◌, ◌≤◌, Cong}
use prio_plus.Field.{Field}
use prio_plus.Circuit.{Circuit}
use prio_plus.Circuit.Checks.{Checks}

-- The place of the field for the squares of input `i` of `n`: rows of falling length follow the
-- `n` inputs and the target.
pub row_start : (n i : ℕ) → ℕ
row_start n zero = n + 1
row_start n (suc i) = row_start n i + (n - i)

abbrev fields : ℕ → ℕ
fields n = 2 * n + 1 + n * (n + 1) / 2

module _ (K : Field) (inps : ℕ → ℕ) where
  open K use {modulus}

  -- Field `k` is the product of the fields `i` and `j`.
  abbrev pub IsProduct : (i j k : ℕ) → Type 0
  IsProduct i j k = Cong modulus (inps i * inps j) (inps k)

  abbrev RowHolds : (rounds i j idx : ℕ) → Type 0
  RowHolds rounds i j idx = (t : ℕ) → t < rounds → IsProduct i (j + t) (idx + t)

  -- The rows from `i` on, over `n` inputs.
  abbrev RowsHold : (n i : ℕ) → Type 0
  RowsHold n i = (s : ℕ) → i ≤ s → s < n → RowHolds (n - s) s s (row_start n s)

  -- Fields `0 .. n - 1` are the inputs `x`, field `n` is the target `y`.
  pub record IsLinReg (n : ℕ) : Type 0 where
    pub quadratic : (i j : ℕ) → i ≤ j → j < n → IsProduct i j (row_start n i + (j - i))
    pub cross : (i : ℕ) → i < n → IsProduct n i (row_start n n + i)
