-- ===== src/Server/CountMin/Estimates.antt =====
-- `countMin_op`: the least of the counts at the hashes of a value.
use prio_plus.Base.{
  ℕ, zero, suc, ◌+◌, ◌*◌, ◌%◌, ◌^◌, ◌<◌, ◌≤◌, ◌≡◌, List, arith, get_or, if◌then◌else◌, Bool-cases,
  inl, inr, ltb, ltb→lt, lt→ltb, refl, true,
}
use prio_plus.Field.{Field}
use prio_plus.Hash.{HashLib, HashStore, hash_eval}
use prio_plus.Server.CountMin.{int_lt, int_index, estimate_loop}

-- Counts below 2 ^ 31 are compared as they are.
int_lt_small : (a b : ℕ) → a < 2 ^ 31 → b < 2 ^ 31 → int_lt a b ≡ ltb a b
int_lt_small a b ha hb =
    let ea : (a + 2 ^ 31) % 2 ^ 32 ≡ a + 2 ^ 31 = omega (arith, ha) in
    let eb : (b + 2 ^ 31) % 2 ^ 32 ≡ b + 2 ^ 31 = omega (arith, hb) in rw (ea, eb) (ground arith)

-- A hash below 2 ^ 31 is an `int` as it is.
int_index_small : (base h : ℕ) → h < 2 ^ 31 → int_index base h ≡ base + h
int_index_small base h lt =
    let e : h % 2 ^ 32 ≡ h = omega (arith, lt) in
    let below : ltb h (2 ^ 31) ≡ true = lt→ltb h (2 ^ 31) lt in rw (e, below) refl

-- The least keeps what bounds both counts from below, and stays below the first bound.
smaller :
    (low high a b : ℕ)
    → low ≤ a
    → low ≤ b
    → b ≤ high
    → a < 2 ^ 31
    → high < 2 ^ 31
    → (low ≤ (if int_lt a b then a else b)) × ((if int_lt a b then a else b) ≤ high)
smaller low high a b la lb hb ha hh = elim (Bool-cases (int_lt a b)) [
  | inl e ↦
      let lt = ltb→lt a b (rw (int_lt_small a b ha (omega (arith, hb, hh))) at e) in
      rw e (la, omega (arith, lt, hb))
  | inr e ↦ rw e (lb, hb)
]

module _ (K : Field) (L : HashLib) (get_ui : ℕ → ℕ) (h : HashStore) (a : List ℕ)
    (w x low high : ℕ) where
  -- The place that hash `j` reads.
  abbrev pub read_at : (j : ℕ) → ℕ
  read_at j = get_ui (get_or a (j * w + get_ui (hash_eval K L h j x)) 0)

  pub estimate_loop-bounds :
      (rounds j acc : ℕ)
      → ((i : ℕ) → i < j + rounds → (low ≤ read_at i) × (read_at i < 2 ^ 31))
      → ((i : ℕ) → i < j + rounds → get_ui (hash_eval K L h i x) < 2 ^ 31)
      → low ≤ acc
      → acc ≤ high
      → high < 2 ^ 31
      → (let est = estimate_loop K L get_ui h a w x rounds j acc in (low ≤ est) × (est ≤ high))
  unfolding estimate_loop
  estimate_loop-bounds zero j acc reads hashes le above small = (le, above)
  estimate_loop-bounds (suc rounds) j acc reads hashes le above small =
      let r = reads j (omega arith) in
      let whole : read_at j % 2 ^ 32 ≡ read_at j = omega (arith, r.1) in
      let next = smaller low high (read_at j) acc r.0 le above r.1 small in
      let place = int_index_small (j * w) (get_ui (hash_eval K L h j x)) (hashes j (omega arith)) in
      rw (place, whole)
        (estimate_loop-bounds rounds (suc j) (if int_lt (read_at j) acc then read_at j else acc)
          (λ i lt. reads i (omega (arith, lt))) (λ i lt. hashes i (omega (arith, lt))) next.0 next.1
          small)
