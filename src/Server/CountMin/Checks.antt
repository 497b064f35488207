-- ===== src/Server/CountMin/Checks.antt =====
-- `countMin_op`: what the batch check says of the rows that are shared.
use prio_plus.Base.{
  ℕ, zero, suc, ◌+◌, ◌*◌, ◌%◌, ◌≡◌, refl, ap, ◌∙◌, sym, Bool, true, false, List, [], ◌∷◌, map,
  arith, length, xor, bit, get_or, table, length-table, replicate, Cong, ◌▸◌, cong_of_eq, cong_refl,
  add-Cong, ◌&&◌, ◌==◌, if◌then◌else◌, length-map,
}
use prio_plus.Field.{Field, add_mod, add_mod_lem}
use prio_plus.Correlated.Conversion.{AreSummed}
use prio_plus.Correlated.OtConversion.{flatten}
use prio_plus.Server.Aggregate.Rows.{HaveRowLength}
use prio_plus.Server.Freq.{parity_loop, sum_loop}
use prio_plus.Server.Freq.Rows.{AllSummed}
use prio_plus.Server.Freq.Counts.{
  diff_row, diff_rows, total_of, grand_total, count_true, parity_loop-count, count-append,
  grand-parity, bit-xor,
}
use prio_plus.Server.Freq.Sums.{sum_loop-Cong, total-Cong}
use prio_plus.Server.CountMin.{segment, parity_of, parity_check, sum_of, sum_check, sketch_valid}

-- The total of the row `j` of the shared arrays.
abbrev pub segment_total : (w j : ℕ) → List (List ℕ) → ℕ
segment_total w j [] = 0
segment_total w j (row ∷ rows) = total_of (segment w j 0 row) + segment_total w j rows

get_or-diff_row :
    (row0 row1 : List Bool) (i : ℕ)
    → length row0 ≡ length row1
    → get_or (diff_row row0 row1) i 0 ≡ bit (xor (get_or row0 i false) (get_or row1 i false))
unfolding xor
get_or-diff_row [] [] i e = refl
get_or-diff_row [] (b ∷ row1) i e = absurd (omega (arith, e))
get_or-diff_row (a ∷ row0) [] i e = absurd (omega (arith, e))
get_or-diff_row (a ∷ row0) (b ∷ row1) zero e = refl
get_or-diff_row (a ∷ row0) (b ∷ row1) (suc i) e = get_or-diff_row row0 row1 i (omega (arith, e))

table-diff_row :
    (n s : ℕ) (row0 row1 : List Bool)
    → length row0 ≡ length row1
    → diff_row (table n s (λ i. get_or row0 i false)) (table n s (λ i. get_or row1 i false))
      ≡ table n s (λ i. get_or (diff_row row0 row1) i 0)
table-diff_row zero s row0 row1 e = refl
table-diff_row (suc n) s row0 row1 e =
    rw (get_or-diff_row row0 row1 s e, table-diff_row n (suc s) row0 row1 e) refl

module _ (w j : ℕ) where
  segments-total :
      (k : ℕ) (x0 x1 : List (List Bool))
      → HaveRowLength k x0
      → HaveRowLength k x1
      → grand_total (diff_rows (map (segment w j false) x0) (map (segment w j false) x1))
        ≡ segment_total w j (diff_rows x0 x1)
  segments-total k [] x1 h0 h1 = refl
  segments-total k (row0 ∷ x0) [] h0 h1 = refl
  segments-total k (row0 ∷ x0) (row1 ∷ x1) h0 h1 =
      rw (table-diff_row w (j * w) row0 row1 (h0.0 ∙ sym h1.0), segments-total k x0 x1 h0.1 h1.1)
        refl

  segments-HaveRowLength : (x : List (List Bool)) → HaveRowLength w (map (segment w j false) x)
  segments-HaveRowLength [] = tt
  segments-HaveRowLength (row ∷ x) =
      (length-table w (j * w) (λ i. get_or row i false), segments-HaveRowLength x)

  parity_of-count :
      (p : Bool) (x : List (List Bool))
      → bit (parity_of w j p x) ≡ (bit p + count_true (flatten (map (segment w j false) x))) % 2
  unfolding parity_of flatten
  parity_of-count false [] = refl
  parity_of-count true [] = refl
  parity_of-count p (row ∷ x) =
      let rest = flatten (map (segment w j false) x) in
      omega (
        arith,
        parity_of-count (parity_loop p (segment w j false row)) x,
        parity_loop-count p (segment w j false row),
        count-append (segment w j false row) rest,
      )

  parities-segment :
      (k : ℕ) (x0 x1 : List (List Bool))
      → length x0 ≡ length x1
      → HaveRowLength k x0
      → HaveRowLength k x1
      → bit (xor (parity_of w j false x0) (parity_of w j false x1))
        ≡ segment_total w j (diff_rows x0 x1) % 2
  parities-segment k x0 x1 e h0 h1 =
      let s0 = map (segment w j false) x0 in
      let s1 = map (segment w j false) x1 in
      let same : length s0 ≡ length s1 =
        length-map x0 (segment w j false) ∙ e ∙ sym (length-map x1 (segment w j false)) in
      omega (
        arith,
        bit-xor (parity_of w j false x0) (parity_of w j false x1),
        parity_of-count false x0,
        parity_of-count false x1,
        grand-parity w s0 s1 same (segments-HaveRowLength x0) (segments-HaveRowLength x1),
        segments-total k x0 x1 h0 h1,
      )

  module _ (K : Field) where
    open K use {modulus}

    get_or-AreSummed :
        (row0 row1 : List Bool) (p q : List ℕ) (i : ℕ)
        → AreSummed K row0 row1 p q
        → Cong modulus
            (get_or p i 0 + get_or q i 0)
            (bit (xor (get_or row0 i false) (get_or row1 i false)))
    unfolding xor
    get_or-AreSummed [] [] [] [] i h = cong_of_eq modulus refl
    get_or-AreSummed (a ∷ row0) (b ∷ row1) (x ∷ p) (y ∷ q) zero h = h.0
    get_or-AreSummed (a ∷ row0) (b ∷ row1) (x ∷ p) (y ∷ q) (suc i) h =
        get_or-AreSummed row0 row1 p q i h.1
    get_or-AreSummed row0 row1 p q i h = absurd h

    table-AreSummed :
        (n s : ℕ) (row0 row1 : List Bool) (p q : List ℕ)
        → AreSummed K row0 row1 p q
        → AreSummed K
            (table n s (λ i. get_or row0 i false))
            (table n s (λ i. get_or row1 i false))
            (table n s (λ i. get_or p i 0))
            (table n s (λ i. get_or q i 0))
    table-AreSummed zero s row0 row1 p q h = tt
    table-AreSummed (suc n) s row0 row1 p q h =
        (get_or-AreSummed row0 row1 p q s h, table-AreSummed n (suc s) row0 row1 p q h)

    sum_of-Cong :
        (sum : ℕ) (rows : List (List ℕ))
        → Cong modulus (sum_of K w j sum rows) (sum + segment_total w j rows)
    unfolding sum_of
    sum_of-Cong sum [] = cong_of_eq modulus (omega arith)
    sum_of-Cong sum (row ∷ rows) =
        sum_of-Cong (sum_loop K sum (segment w j 0 row)) rows
        ▸ add-Cong (sum_loop-Cong K sum (segment w j 0 row))
            (cong_refl modulus (segment_total w j rows))
        ▸ cong_of_eq modulus (omega arith)

    segments-Cong :
        (k : ℕ) (x0 x1 : List (List Bool)) (p q : List (List ℕ))
        → HaveRowLength k x0
        → HaveRowLength k x1
        → AllSummed K x0 x1 p q
        → Cong modulus
            (segment_total w j p + segment_total w j q)
            (segment_total w j (diff_rows x0 x1))
    segments-Cong k [] [] [] [] h0 h1 h = cong_of_eq modulus refl
    segments-Cong k (row0 ∷ x0) (row1 ∷ x1) (p ∷ ps) (q ∷ qs) h0 h1 h =
        let here =
          total-Cong K _ _ _ _ (table-AreSummed w (j * w) row0 row1 p q h.0)
          ▸ cong_of_eq modulus
              (ap total_of (table-diff_row w (j * w) row0 row1 (h0.0 ∙ sym h1.0))) in
        cong_of_eq modulus (omega arith) ▸ add-Cong here (segments-Cong k x0 x1 ps qs h0.1 h1.1 h.1)
    segments-Cong k x0 x1 p q h0 h1 h = absurd h

    sums-segment :
        (k : ℕ) (x0 x1 : List (List Bool)) (p q : List (List ℕ))
        → HaveRowLength k x0
        → HaveRowLength k x1
        → AllSummed K x0 x1 p q
        → Cong modulus (sum_of K w j 0 p + sum_of K w j 0 q) (segment_total w j (diff_rows x0 x1))
    sums-segment k x0 x1 p q h0 h1 h =
        add-Cong (sum_of-Cong 0 p) (sum_of-Cong 0 q)
        ▸ cong_of_eq modulus (omega arith)
        ▸ segments-Cong k x0 x1 p q h0 h1 h

last_parity :
    (total : ℕ) (b : Bool) (n s : ℕ) (f : ℕ → Bool × Bool)
    → parity_check total b (table (suc n) s f)
      ≡ (bit (xor (f (s + n)).0 (f (s + n)).1) == total % 2)
unfolding parity_check
last_parity total b zero s f = let e : s + 0 ≡ s = omega arith in rw e refl
last_parity total b (suc n) s f =
    let e : s + suc n ≡ suc s + n = omega arith in
    rw e (last_parity total (bit (xor (f s).0 (f s).1) == total % 2) n (suc s) f)

last_sum :
    (K : Field) (total : ℕ) (b : Bool) (n s : ℕ) (f : ℕ → ℕ × ℕ)
    → sum_check K total b (table (suc n) s f) ≡ (add_mod K (f (s + n)).0 (f (s + n)).1 == total)
unfolding sum_check
last_sum K total b zero s f = let e : s + 0 ≡ s = omega arith in rw e refl
last_sum K total b (suc n) s f =
    let e : s + suc n ≡ suc s + n = omega arith in
    rw e (last_sum K total (add_mod K (f s).0 (f s).1 == total) n (suc s) f)

if_and : (a b : Bool) → (if a then b else false) ≡ (a && b)
if_and true b = refl
if_and false b = refl

-- The batch check of `countMin_op` looks only at the last row of the shared arrays: all inputs count
-- when that row's total has the parity of `total_inputs` and is equal to it modulo `Int_Modulus`, and
-- none do otherwise, whatever the other rows hold.
pub sketch_valid-last :
    (K : Field) (k last_j w total : ℕ) (known : List Bool) (x0 x1 : List (List Bool))
    (p q : List (List ℕ))
    → length x0 ≡ length x1
    → HaveRowLength k x0
    → HaveRowLength k x1
    → AllSummed K x0 x1 p q
    → (let g = segment_total w last_j (diff_rows x0 x1) in
        sketch_valid K (suc last_j) w total known x0 x1 p q
        ≡ replicate (length known) ((g % 2 == total % 2) && (g % K.modulus == total)))
unfolding sketch_valid
sketch_valid-last K k last_j w total known x0 x1 p q e h0 h1 h =
    let parity = parities-segment w last_j k x0 x1 e h0 h1 in
    let sums = (sums-segment w last_j K k x0 x1 p q h0 h1 h).same in
    let g = segment_total w last_j (diff_rows x0 x1) in
    let from_zero : 0 + last_j ≡ last_j = omega arith in
    rw
      (
        last_parity total false last_j 0 (λ j. (parity_of w j false x0, parity_of w j false x1)),
        last_sum K total true last_j 0 (λ j. (sum_of K w j 0 p, sum_of K w j 0 q)),
        from_zero,
        parity,
        add_mod_lem K (sum_of K w last_j 0 p) (sum_of K w last_j 0 q),
        sums,
      )
      (ap (replicate (length known)) (if_and (g % 2 == total % 2) (g % K.modulus == total)))
