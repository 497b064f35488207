-- ===== src/Client/Polynomials/Extended.antt =====
-- `share_polynomials`: the points of its polynomials, and their values at twice as many roots.
use prio_plus.Base.{
  List, [], ◌∷◌, if◌then◌else◌, ℕ, suc, ◌+◌, ◌*◌, ◌^◌, ◌<◌, ◌≡◌, refl, ap, ◌∙◌, false, true, some,
  ltb, get_or, arith, Cong, ◌▸◌, cong_of_eq, cong_refl, mul-Cong, Option, Bool-cases, inl, inr,
  ltb→lt,
}
use prio_plus.Correlated.{◌>>=◌}
use native.Mathlib.Nat.{pow-suc}
use prio_plus.Field.{Field}
use prio_plus.Circuit.{Gate, Wires}
use prio_plus.Snips.Places.{parent_values}
use prio_plus.Snips.Fill.{fill, constant_first, fill-next}
use prio_plus.Transform.{fft_interpolate}
use prio_plus.Transform.Sums.{sum_below-Cong}
use prio_plus.Transform.Values.{transform, IsRoot}
use prio_plus.Transform.Interpolation.{fft_interpolate-values}
use prio_plus.Transform.Roots.{PowLib, RootTables}
use prio_plus.Client.Polynomials.{gate_points, padded, eval_at_roots}

pub bind_some {ℓ κ} :
    {A : Type ℓ} {B : Type κ} (o : Option A) (a : A) (f : A → Option B)
    → o ≡ some a
    → (o >>= f) ≡ f a
bind_some o a f e = ap (λ o'. o' >>= f) e

gate_points-fill :
    (parent : Gate → ℕ) (gs : List ℕ) (gates : List Gate) (w : Wires) (i : ℕ) (points : ℕ → ℕ)
    → gate_points parent gs gates w i points
      ≡ fill (λ i. i + 1) (parent_values parent gs gates w) i points
unfolding gate_points fill
gate_points-fill parent [] gates w i points = refl
gate_points-fill parent (g ∷ gs) gates w i points = gate_points-fill parent gs gates w (suc i) _

-- The loop writes the wires of the parents after its first point.
pub gate_points-list :
    (parent : Gate → ℕ) (gs : List ℕ) (gates : List Gate) (w : Wires) (a j : ℕ)
    → gate_points parent gs gates w 0 (constant_first a) j
      ≡ get_or (a ∷ parent_values parent gs gates w) j 0
gate_points-list parent gs gates w a j =
    ap (λ (t : ℕ → ℕ). t j) (gate_points-fill parent gs gates w 0 (constant_first a))
    ∙ fill-next (parent_values parent gs gates w) a j

module _ (K : Field) where
  open K use {modulus}

  -- The points, transformed back by the powers of `r`, and then at twice as many by those of `s`.
  abbrev pub extended : PowLib → (k r s : ℕ) (points : ℕ → ℕ) → ℕ → ℕ
  extended L k r s points =
      transform (2 ^ suc k) (λ j. s ^ j)
        (λ j.
          if ltb j (2 ^ k)
          then transform (2 ^ k) (λ i. r ^ i) points j * L.fmpz_invmod (2 ^ k) modulus
          else 0)

  padded-Cong :
      (n : ℕ) (u v : ℕ → ℕ)
      → ((j : ℕ) → j < n → Cong modulus (u j) (v j))
      → (j : ℕ) → Cong modulus (padded n u j) (padded n v j)
  padded-Cong n u v h j = elim (Bool-cases (ltb j n)) [
    | inl e ↦ rw e (h j (ltb→lt j n e))
    | inr e ↦ rw e (cong_refl modulus 0)
  ]

  -- What the theorems ask of the tables of roots.
  pub record AreTables (k r s : ℕ) (t : RootTables) : Type 0 where
    pub root : IsRoot K k (λ j. r ^ j)
    pub root2 : IsRoot K (suc k) (λ j. s ^ j)
    pub inverses : (j : ℕ) → j < 2 ^ k → Cong modulus (get_or t.invroots j 0) (r ^ j)
    pub doubled : (j : ℕ) → j < 2 ^ suc k → Cong modulus (get_or t.roots2 j 0) (s ^ j)

  eval_at_roots_runs :
      (L : PowLib) (n m : ℕ) (t : RootTables) (points poly out : ℕ → ℕ)
      → 2 * n ≡ m
      → fft_interpolate K L.fmpz_invmod n (λ j. get_or t.invroots j 0) points true ≡ some poly
      → fft_interpolate K L.fmpz_invmod m (λ j. get_or t.roots2 j 0) (padded n poly) false
        ≡ some out
      → eval_at_roots K L n t points ≡ some out
  unfolding eval_at_roots
  eval_at_roots_runs L n m t points poly out e run run2 =
      let rest : ℕ → (ℕ → ℕ) → Option (ℕ → ℕ) = λ m poly.
        fft_interpolate K L.fmpz_invmod m (λ j. get_or t.roots2 j 0) (padded n poly) false in
      bind_some (fft_interpolate K L.fmpz_invmod n (λ j. get_or t.invroots j 0) points true) poly
        (rest (2 * n)) run
      ∙ ap (λ (m : ℕ). rest m poly) e
      ∙ run2

  pub eval_at_roots-extended :
      (L : PowLib) (k r s : ℕ) (t : RootTables) (points : ℕ → ℕ)
      → k < 31
      → AreTables k r s t
      → (out : ℕ → ℕ) × (eval_at_roots K L (2 ^ k) t points ≡ some out)
        × ((i : ℕ) → i < 2 ^ suc k → Cong modulus (out i) (extended L k r s points i))
  eval_at_roots-extended L k r s t points bits h =
      let (poly, run, values) =
        fft_interpolate-values K L.fmpz_invmod k r (λ j. get_or t.invroots j 0) points true
          (omega (arith, bits)) h.root h.inverses in
      let (out, run2, values2) =
        fft_interpolate-values K L.fmpz_invmod (suc k) s (λ j. get_or t.roots2 j 0)
          (padded (2 ^ k) poly) false (omega (arith, bits)) h.root2 h.doubled in
      let e : 2 * 2 ^ k ≡ 2 ^ suc k = omega (arith, pow-suc 2 k) in
      (
        out,
        eval_at_roots_runs L (2 ^ k) (2 ^ suc k) t points poly out e run run2,
        λ i below.
            values2 i below
            ▸ cong_of_eq modulus (omega arith)
            ▸ sum_below-Cong modulus (2 ^ suc k) _ _ λ j lt.
              mul-Cong (padded-Cong (2 ^ k) _ _ values j) (cong_refl modulus (s ^ (i * j))),
      )
