-- ===== src/Server/CountMin/Sketches.antt =====
-- `countMin_op`: clients whose arrays are sketches of their values.
use prio_plus.Base.{
  ℕ, get_or-table, zero, suc, ◌+◌, ◌*◌, ◌<◌, ◌≤◌, ◌≡◌, refl, ap, ◌∙◌, Bool, List, [], ◌∷◌, arith,
  length, xor, bit, get_or, table, ltb, if◌then◌else◌, ◌==◌, ==_iff, Bool-cases, inl, inr,
}
use prio_plus.Field.{Field}
use prio_plus.Hash.{HashLib, HashStore, hash_eval}
use prio_plus.Server.Aggregate.{max_val_of}
use prio_plus.Server.Freq.Counts.{diff_row, diff_rows, total_of}
use prio_plus.Server.Freq.Honest.{frequency}
use prio_plus.Server.CountMin.Checks.{segment_total}

-- How many of the values are `x`.
abbrev pub count_of : (x : ℕ) → List ℕ → ℕ
count_of x [] = 0
count_of x (v ∷ vs) = bit (v == x) + count_of x vs

get_or-bit : (row0 row1 : List Bool) (i : ℕ) → get_or (diff_row row0 row1) i 0 ≤ 1
unfolding xor
get_or-bit [] row1 i = omega arith
get_or-bit (a ∷ row0) [] i = omega arith
get_or-bit (a ∷ row0) (b ∷ row1) zero = ground arith
get_or-bit (a ∷ row0) (b ∷ row1) (suc i) = get_or-bit row0 row1 i

pub frequency-length :
    (x0 x1 : List (List Bool)) (i : ℕ) → frequency (diff_rows x0 x1) i ≤ length (diff_rows x0 x1)
frequency-length [] x1 i = omega arith
frequency-length (row0 ∷ x0) [] i = omega arith
frequency-length (row0 ∷ x0) (row1 ∷ x1) i =
    omega (arith, get_or-bit row0 row1 i, frequency-length x0 x1 i)

next_place : (s k : ℕ) (f : ℕ → ℕ) (y : ℕ) → f (s + suc k) ≡ y → f (suc s + k) ≡ y
next_place s k f y h = let e : suc s + k ≡ s + suc k = omega arith in rw e h

same_test : (k t : ℕ) → bit (suc k == suc t) ≡ bit (k == t)
same_test k t = ground arith

not_first : (k : ℕ) → bit (suc k == 0) ≡ 0
not_first k = ground arith

not_second : (t : ℕ) → bit (0 == suc t) ≡ 0
not_second t = ground arith

zeros_total : (n s : ℕ) (f : ℕ → ℕ) → ((k : ℕ) → k < n → f (s + k) ≡ 0) → total_of (table n s f) ≡ 0
zeros_total zero s f h = refl
zeros_total (suc n) s f h =
    let first = h 0 (omega arith) in
    let e : s + 0 ≡ s = omega arith in
    let rest =
      zeros_total n (suc s) f (λ k lt. next_place s k f 0 (h (suc k) (omega (arith, lt)))) in
    omega (arith, rw e at first, rest)

-- An array with a 1 at one of its places and zeros at the others.
pub one_total :
    (n s t : ℕ) (f : ℕ → ℕ)
    → t < n
    → ((k : ℕ) → k < n → f (s + k) ≡ bit (k == t))
    → total_of (table n s f) ≡ 1
one_total zero s t f lt h = absurd (omega (arith, lt))
one_total (suc n) s zero f lt h =
    let first = h 0 (omega arith) in
    let e : s + 0 ≡ s = omega arith in
    let rest =
      zeros_total n (suc s) f
        (λ k below. next_place s k f 0 (h (suc k) (omega (arith, below)) ∙ not_first k)) in
    omega (arith, rw e at first, rest)
one_total (suc n) s (suc t) f lt h =
    let first = h 0 (omega arith) ∙ not_second t in
    let e : s + 0 ≡ s = omega arith in
    let rest = one_total n (suc s) t f (omega (arith, lt)) (λ k below.
      next_place s k f (bit (k == t)) (h (suc k) (omega (arith, below)) ∙ same_test k t)) in
    omega (arith, rw e at first, rest)

module _ (K : Field) (L : HashLib) (h : HashStore) (w : ℕ) where
  -- The array of a client: in each row `j` a 1 at the hash `j` of its value.
  abbrev pub IsSketch : (v : ℕ) → List ℕ → Type 0
  IsSketch v row =
      (j k : ℕ) → j < h.d → k < w → get_or row (j * w + k) 0 ≡ bit (k == hash_eval K L h j v)

  abbrev pub AreSketches : List ℕ → List (List ℕ) → Type 0
  AreSketches [] [] = Unit {0}
  AreSketches (v ∷ vs) (row ∷ rows) = IsSketch v row × AreSketches vs rows
  AreSketches _ _ = ⊥

  pub sketches-total :
      (vs : List ℕ) (rows : List (List ℕ)) (j : ℕ)
      → j < h.d
      → ((v : ℕ) → hash_eval K L h j v < w)
      → AreSketches vs rows
      → segment_total w j rows ≡ length rows
  sketches-total [] [] j lt small s = refl
  sketches-total (v ∷ vs) (row ∷ rows) j lt small s =
      let here =
        one_total w (j * w) (hash_eval K L h j v) (λ i. get_or row i 0) (small v)
          (λ k below. s.0 j k lt below) in
      omega (arith, here, sketches-total vs rows j lt small s.1)
  sketches-total [] (row ∷ rows) j lt small s = absurd s
  sketches-total (v ∷ vs) [] j lt small s = absurd s

  -- The count at the hash of a value is at least the number of the clients with that value.
  pub sketches-count :
      (vs : List ℕ) (rows : List (List ℕ)) (j x : ℕ)
      → j < h.d
      → ((v : ℕ) → hash_eval K L h j v < w)
      → AreSketches vs rows
      → count_of x vs ≤ frequency rows (j * w + hash_eval K L h j x)
  sketches-count [] [] j x lt small s = omega arith
  sketches-count (v ∷ vs) (row ∷ rows) j x lt small s = elim (Bool-cases (v == x)) [
    | inl e ↦
        let same = (==_iff v x).0 e in
        let at_x : get_or row (j * w + hash_eval K L h j x) 0 ≡ 1 =
          s.0 j (hash_eval K L h j x) lt (small x)
          ∙ rw (same, (==_iff (hash_eval K L h j x) _).1 refl) refl in
        rw e (omega (arith, at_x, sketches-count vs rows j x lt small s.1))
    | inr e ↦ rw e (omega (arith, sketches-count vs rows j x lt small s.1))
  ]
  sketches-count [] (row ∷ rows) j x lt small s = absurd s
  sketches-count (v ∷ vs) [] j x lt small s = absurd s

pub get_or-table_zero : (n x : ℕ) (f : ℕ → ℕ) → x < n → get_or (table n 0 f) x 0 ≡ f x
get_or-table_zero n x f lt = let e : 0 + x ≡ x = omega arith in get_or-table n 0 x f 0 lt ∙ ap f e

-- Among the first 256 values.
abbrev pub IsAsked : (num_bits x : ℕ) → Type 0
IsAsked num_bits x = (x < max_val_of num_bits) × (x < 256)

pub asked_below :
    (num_bits x : ℕ)
    → IsAsked num_bits x
    → x < (if ltb (max_val_of num_bits) 256 then max_val_of num_bits else 256)
asked_below num_bits x h = elim (Bool-cases (ltb (max_val_of num_bits) 256)) [
  | inl e ↦ rw e h.0
  | inr e ↦ rw e h.1
]
