-- ===== src/Client/Frequencies.antt =====
-- Honest clients and the two servers together, for the frequencies.
pub mod Answers
use prio_plus.Base.{
  ℕ, zero, suc, ◌+◌, ◌*◌, ◌%◌, ◌^◌, ◌<◌, ◌≤◌, ◌≡◌, refl, ap, ◌∙◌, sym, Bool, true, false, not, List,
  [], ◌∷◌, map, some, length, xor, bit, ◌==◌, ==_iff, arith, u64, update, table, get_or, Bool-cases,
  inl, inr, if◌then◌else◌,
}
use mathlib.Core.List.{Perm}
use native.Mathlib.Nat.{mod-eq_of_lt, mod-lt}
use prio_plus.Field.{Field}
use prio_plus.Correlated.{Store, Supply}
use prio_plus.Correlated.Queues.{SuppliesMatch, StoresMatch}
use prio_plus.Server.{Shares, ret_ans, find, on_found, keys, values}
use prio_plus.Server.Collect.{IsNewKey, HaveOwnKeys, collect_shares-own}
use prio_plus.Server.Aggregate.{find_shares, known_shares, max_val_of}
use prio_plus.Server.Freq.{freq_op}
use prio_plus.Server.Freq.Counts.{diff_row, diff_rows, total_of}
use prio_plus.Server.Freq.Answers.{rows_of0, rows_of1}
use prio_plus.Server.Freq.Honest.{HaveOneEach, frequency, freq_op-honest}
use prio_plus.Server.CountMin.Sketches.{one_total, get_or-table_zero}
use prio_plus.Client.{FreqRequest, freq_helper}
use prio_plus.Client.Totals.{total, total-perm}

-- Each entry of `xs` is what `m` has for its key.
abbrev pub AreEntries : {V : Type 0} → Shares V → Shares V → Type 0
AreEntries [] m = Unit {0}
AreEntries ((k, v) ∷ xs) m = (find k m ≡ some v) × AreEntries xs m

AreEntries-cons :
    {V : Type 0} (k : ℕ) (v : V) (xs m : Shares V)
    → IsNewKey k xs
    → AreEntries xs m
    → AreEntries xs ((k, v) ∷ m)
AreEntries-cons k v [] m new h = tt
AreEntries-cons k v ((pk, w) ∷ xs) m new h = (rw new.0 h.0, AreEntries-cons k v xs m new.1 h.1)

pub own-AreEntries : {V : Type 0} (xs : Shares V) → HaveOwnKeys xs → AreEntries xs xs
own-AreEntries [] own = tt
own-AreEntries ((k, v) ∷ xs) own =
    (rw ((==_iff k k).1 refl) refl, AreEntries-cons k v xs xs own.0 (own-AreEntries xs own.1))

-- The shared row of an entry of server 1.
pub entry_row : (n : ℕ) (m0 : Shares (ℕ → Bool)) → ℕ × (ℕ → Bool) → List ℕ
entry_row n m0 (k, t) =
    diff_row (table n 0 (on_found (find k m0) (λ j. false) (λ v. v))) (table n 0 t)

pub entry_rows :
    (n : ℕ) (m0 entries : Shares (ℕ → Bool))
    → diff_rows (rows_of0 n m0 entries) (rows_of1 n entries) ≡ map (entry_row n m0) entries
unfolding find_shares entry_row
entry_rows n m0 [] = refl
entry_rows n m0 ((k, t) ∷ entries) =
    ap (λ rows. entry_row n m0 (k, t) ∷ rows) (entry_rows n m0 entries)

pub frequency-total :
    {A : Type 0} (f : A → List ℕ) (xs : List A) (j : ℕ)
    → frequency (map f xs) j ≡ total (λ x. get_or (f x) j 0) xs
frequency-total f [] j = refl
frequency-total f (x ∷ xs) j = ap (λ (t : ℕ). get_or (f x) j 0 + t) (frequency-total f xs j)

-- 0 for a row with one 1.
abbrev pub defect : List ℕ → ℕ
defect row = if total_of row == 1 then 0 else 1

pub defects-HaveOneEach :
    {A : Type 0} (f : A → List ℕ) (xs : List A)
    → total (λ x. defect (f x)) xs ≡ 0
    → HaveOneEach (map f xs)
defects-HaveOneEach f [] h = tt
defects-HaveOneEach f (x ∷ xs) h = elim (Bool-cases (total_of (f x) == 1)) [
  | inl e ↦
      let rest : total (λ y. defect (f y)) xs ≡ 0 = omega (arith, rw e at h) in
      ((==_iff (total_of (f x)) 1).0 e, defects-HaveOneEach f xs rest)
  | inr e ↦ absurd (omega (arith, rw e at h))
]

table-diff :
    (n s : ℕ) (f g : ℕ → Bool)
    → diff_row (table n s f) (table n s g) ≡ table n s (λ j. bit (xor (f j) (g j)))
table-diff zero s f g = refl
table-diff (suc n) s f g = ap (λ row. bit (xor (f s) (g s)) ∷ row) (table-diff n (suc s) f g)

flip_bit : (b : Bool) → bit (xor b (not b)) ≡ 1
unfolding xor
flip_bit true = refl
flip_bit false = refl

same_bit : (b : Bool) → bit (xor b b) ≡ 0
unfolding xor
same_bit true = refl
same_bit false = refl

not_equal : (v j : ℕ) → (v == j) ≡ false → (j == v) ≡ false
not_equal v j e = ground arith

flipped :
    (arr : ℕ → Bool) (v j : ℕ) → bit (xor (arr j) (update arr v (not (arr v)) j)) ≡ bit (j == v)
unfolding xor
flipped arr v j = elim (Bool-cases (v == j)) [
  | inl e ↦ let same = (==_iff v j).0 e in rw (same, (==_iff j j).1 refl) (flip_bit (arr j))
  | inr e ↦ rw (e, not_equal v j e) (same_bit (arr j))
]

-- The row that a client shares.
module _ (n : ℕ) (pos : 0 < n) (m : Shares (ℕ → Bool)) (r : FreqRequest)
    (found : find r.pk m ≡ some r.arr) where
  shared_row : List ℕ
  shared_row = entry_row n m (r.pk, update r.arr (r.word % n) (not (r.arr (r.word % n))))

  shared_row-table :
      shared_row
      ≡ table n 0
          (λ j. bit (xor (r.arr j) (update r.arr (r.word % n) (not (r.arr (r.word % n))) j)))
  unfolding shared_row entry_row
  shared_row-table =
      rw found (table-diff n 0 r.arr (update r.arr (r.word % n) (not (r.arr (r.word % n)))))

  shared_row-one : total_of shared_row ≡ 1
  shared_row-one =
      ap total_of shared_row-table
      ∙ one_total n 0 (r.word % n) _ (mod-lt r.word pos)
          (λ k lt. let e : 0 + k ≡ k = omega arith in rw e (flipped r.arr (r.word % n) k))

  shared_row-at : (j : ℕ) → j < n → get_or shared_row j 0 ≡ bit (j == r.word % n)
  shared_row-at j lt =
      ap (λ row. get_or row j 0) shared_row-table
      ∙ get_or-table_zero n j _ lt
      ∙ flipped r.arr (r.word % n) j

-- The number of the clients with the value `j`.
abbrev pub count_value : (n j : ℕ) → List FreqRequest → ℕ
count_value n j [] = 0
count_value n j (r ∷ rs) = bit (j == r.word % n) + count_value n j rs

module _ (n : ℕ) (pos : 0 < n) (m : Shares (ℕ → Bool)) where
  pub helper-defects :
      (rs : List FreqRequest) (c : ℕ → ℕ)
      → AreEntries (freq_helper n rs c).freqshare0 m
      → total (λ x. defect (entry_row n m x)) (freq_helper n rs c).freqshare1 ≡ 0
  unfolding freq_helper shared_row
  helper-defects [] c h = refl
  helper-defects (r ∷ rs) c h =
      let one = (==_iff _ 1).1 (shared_row-one n pos m r h.0) in
      rw (one, helper-defects rs _ h.1) refl

  pub helper-frequency :
      (rs : List FreqRequest) (c : ℕ → ℕ) (j : ℕ)
      → j < n
      → AreEntries (freq_helper n rs c).freqshare0 m
      → total (λ x. get_or (entry_row n m x) j 0) (freq_helper n rs c).freqshare1
        ≡ count_value n j rs
  unfolding freq_helper shared_row
  helper-frequency [] c j lt h = refl
  helper-frequency (r ∷ rs) c j lt h =
      rw (shared_row-at n pos m r h.0 j lt, helper-frequency rs _ j lt h.1) refl

counted :
    (c : ℕ → ℕ) (v i n : ℕ)
    → ((i : ℕ) → c i + suc n < u64)
    → update c v ((c v + 1) % u64) i + n < u64
counted c v i n few = elim (Bool-cases (v == i)) [
  | inl e ↦ rw e (omega (arith, few v))
  | inr e ↦ rw e (omega (arith, few i))
]

after :
    (c : ℕ → ℕ) (v j n : ℕ)
    → ((i : ℕ) → c i + suc n < u64)
    → (count : ℕ) → update c v ((c v + 1) % u64) j + count ≡ c j + (bit (j == v) + count)
after c v j n few count = elim (Bool-cases (v == j)) [
  | inl e ↦
      let same = (==_iff v j).0 e in
      let word : (c j + 1) % u64 ≡ c j + 1 = omega (arith, few j) in
      rw (same, (==_iff j j).1 refl, word) (omega arith)
  | inr e ↦ rw (e, not_equal v j e) (omega arith)
]

pub helper-counts :
    (n : ℕ) (rs : List FreqRequest) (c : ℕ → ℕ) (j : ℕ)
    → ((i : ℕ) → c i + length rs < u64)
    → (freq_helper n rs c).counts j ≡ c j + count_value n j rs
unfolding freq_helper
helper-counts n [] c j few = omega arith
helper-counts n (r ∷ rs) c j few =
    let v = r.word % n in
    helper-counts n rs (update c v ((c v + 1) % u64)) j (λ i. counted c v i (length rs) few)
    ∙ after c v j (length rs) few (count_value n j rs)

pub length-helper :
    (n : ℕ) (rs : List FreqRequest) (c : ℕ → ℕ) → length (freq_helper n rs c).freqshare1 ≡ length rs
unfolding freq_helper
length-helper n [] c = refl
length-helper n (r ∷ rs) c = ap suc (length-helper n rs _)
