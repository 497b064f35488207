-- ===== src/Snips/Fill.antt =====
-- `evalPoly`: arrays that are filled in steps, place by place.
use prio_plus.Base.{
  Bool-cases, ==_iff, ℕ, zero, suc, ◌+◌, ◌*◌, ◌/◌, ◌%◌, ◌<◌, ◌≤◌, ◌≡◌, ◌≢◌, refl, ap, ◌∙◌, sym,
  List, [], ◌∷◌, length, false, ◌==◌, ltb, if◌then◌else◌, get_or, table, length-table, get_or-table,
  update, update_self, update_ne, lt_or_le, lt→ltb, inl, inr, arith,
}

-- Values written one after the other, the one of index `i` at `place i`.
unfoldable pub fill : (place : ℕ → ℕ) → List ℕ → (i : ℕ) (points : ℕ → ℕ) → ℕ → ℕ
fill place [] i points = points
fill place (v ∷ vs) i points = fill place vs (suc i) (update points (place i) v)

pub fill_keeps :
    (place : ℕ → ℕ) (vs : List ℕ) (i : ℕ) (points : ℕ → ℕ) (j : ℕ)
    → ((k : ℕ) → i ≤ k → k < i + length vs → place k ≢ j)
    → fill place vs i points j ≡ points j
unfolding fill
fill_keeps place [] i points j h = refl
fill_keeps place (v ∷ vs) i points j h =
    fill_keeps place vs (suc i) (update points (place i) v) j
      (λ k le lt. h k (omega (arith, le)) (omega (arith, lt)))
    ∙ update_ne points (place i) v j (h i (omega arith) (omega arith))

pub fill_at :
    (place : ℕ → ℕ) (vs : List ℕ) (i d : ℕ) (points : ℕ → ℕ)
    → ((k l : ℕ) → k < l → place k < place l)
    → d < length vs
    → fill place vs i points (place (i + d)) ≡ get_or vs d 0
unfolding fill
fill_at place [] i d points up lt = absurd (omega (arith, lt))
fill_at place (v ∷ vs) i zero points up lt =
    let e : i + 0 ≡ i = omega arith in
    rw e (
      fill_keeps place vs (suc i) (update points (place i) v) (place i)
        (λ k le below. let more = up i k (omega (arith, le)) in omega (arith, more))
      ∙ update_self points (place i) v)
fill_at place (v ∷ vs) i (suc d) points up lt =
    let e : i + suc d ≡ suc i + d = omega arith in
    rw e (fill_at place vs (suc i) d (update points (place i) v) up (omega (arith, lt)))

get_or_past : (xs : List ℕ) (i : ℕ) → length xs ≤ i → get_or xs i 0 ≡ 0
get_or_past [] i h = refl
get_or_past (x ∷ xs) zero h = absurd (omega (arith, h))
get_or_past (x ∷ xs) (suc i) h = get_or_past xs i (omega (arith, h))

abbrev pub constant_first : (a : ℕ) → ℕ → ℕ
constant_first a = update (λ i. 0) 0 a

-- After a constant at 0, the values stand one after the other.
pub fill-next :
    (vs : List ℕ) (a j : ℕ) → fill (λ i. i + 1) vs 0 (constant_first a) j ≡ get_or (a ∷ vs) j 0
fill-next vs a zero =
    fill_keeps (λ i. i + 1) vs 0 (constant_first a) 0 (λ k le lt e. omega (arith, e))
    ∙ update_self (λ i. 0) 0 a
fill-next vs a (suc j) = elim (lt_or_le j (length vs)) [
  | inl lt ↦
      let e : suc j ≡ 0 + j + 1 = omega arith in
      ap (fill (λ i. i + 1) vs 0 (constant_first a)) e
      ∙ fill_at (λ i. i + 1) vs 0 j (constant_first a) (λ k l below. omega (arith, below)) lt
  | inr le ↦
      fill_keeps (λ i. i + 1) vs 0 (constant_first a) (suc j)
        (λ k low lt e. omega (arith, e, lt, le))
      ∙ update_ne (λ i. 0) 0 a (suc j) (λ e. omega (arith, e))
      ∙ sym (get_or_past vs j le)
]

fill-even :
    (vs : List ℕ) (a j : ℕ)
    → fill (λ i. 2 * (i + 1)) vs 0 (constant_first a) (2 * j) ≡ get_or (a ∷ vs) j 0
fill-even vs a zero =
    fill_keeps (λ i. 2 * (i + 1)) vs 0 (constant_first a) 0 (λ k le lt e. omega (arith, e))
    ∙ update_self (λ i. 0) 0 a
fill-even vs a (suc j) = elim (lt_or_le j (length vs)) [
  | inl lt ↦
      let e : 2 * suc j ≡ 2 * (0 + j + 1) = omega arith in
      ap (fill (λ i. 2 * (i + 1)) vs 0 (constant_first a)) e
      ∙ fill_at (λ i. 2 * (i + 1)) vs 0 j (constant_first a) (λ k l below. omega (arith, below)) lt
  | inr le ↦
      fill_keeps (λ i. 2 * (i + 1)) vs 0 (constant_first a) (2 * suc j)
        (λ k low lt e. omega (arith, e, lt, le))
      ∙ update_ne (λ i. 0) 0 a (2 * suc j) (λ e. omega (arith, e))
      ∙ sym (get_or_past vs j le)
]

fill-odd : (vs : List ℕ) (a j : ℕ) → fill (λ i. 2 * (i + 1)) vs 0 (constant_first a) (2 * j + 1) ≡ 0
fill-odd vs a j =
    fill_keeps (λ i. 2 * (i + 1)) vs 0 (constant_first a) (2 * j + 1)
      (λ k low lt e. omega (arith, e))
    ∙ update_ne (λ i. 0) 0 a (2 * j + 1) (λ e. omega (arith, e))

-- The points of `h`: at the even places the constant and the values of the multiplication gates, at
-- the odd ones the first `n` of those that the packet carries.
abbrev pub h_values : (n a : ℕ) (vs : List ℕ) (h_points : ℕ → ℕ) → ℕ → ℕ
h_values n a vs h_points j =
    if j % 2 == 0 then get_or (a ∷ vs) (j / 2) 0 else if ltb (j / 2) n then h_points (j / 2) else 0

pub fill-h :
    (n a : ℕ) (vs : List ℕ) (h_points : ℕ → ℕ) (j : ℕ)
    → fill
        (λ i. 2 * i + 1)
        (table n 0 h_points)
        0
        (fill (λ i. 2 * (i + 1)) vs 0 (constant_first a))
        j
      ≡ h_values n a vs h_points j
fill-h n a vs h_points j =
    let inner = fill (λ i. 2 * (i + 1)) vs 0 (constant_first a) in
    let long = length-table n 0 h_points in
    elim (Bool-cases (j % 2 == 0)) [
      | inl e ↦
          let twice : j ≡ 2 * (j / 2) = let z = (==_iff (j % 2) 0).0 e in omega (arith, z) in
          rw e (
            fill_keeps (λ i. 2 * i + 1) (table n 0 h_points) 0 inner j
              (λ k le lt q. omega (arith, q, twice))
            ∙ ap inner twice
            ∙ fill-even vs a (j / 2))
      | inr e ↦
          let odd : j ≡ 2 * (j / 2) + 1 = let z : j % 2 ≡ 1 = ground arith in omega (arith, z) in
          rw e (elim (lt_or_le (j / 2) n) [
            | inl lt ↦
                let z : 0 + j / 2 ≡ j / 2 = omega arith in
                let odd' : j ≡ 2 * (0 + j / 2) + 1 = omega (arith, odd) in
                rw (lt→ltb (j / 2) n lt) (
                  ap (fill (λ i. 2 * i + 1) (table n 0 h_points) 0 inner) odd'
                  ∙ fill_at (λ i. 2 * i + 1) (table n 0 h_points) 0 (j / 2) inner
                      (λ k l below. omega (arith, below)) (omega (arith, long, lt))
                  ∙ get_or-table n 0 (j / 2) h_points 0 lt
                  ∙ ap h_points z)
            | inr le ↦
                let not_lt : ltb (j / 2) n ≡ false = ground arith in
                rw not_lt (
                  fill_keeps (λ i. 2 * i + 1) (table n 0 h_points) 0 inner j
                    (λ k low lt q. omega (arith, q, odd, lt, long, le))
                  ∙ ap inner odd
                  ∙ fill-odd vs a (j / 2))
          ])
    ]
