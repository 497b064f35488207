-- ===== src/Server/Aggregate/Judged.antt =====
-- `checked_sums`: which inputs are valid, for the rows that `share_convert` gives.
use prio_plus.Base.{ℕ, suc, ◌≡◌, refl, ap, bit, ◌+◌, arith, Bool, List, [], ◌∷◌, map, length, ◌&&◌}
use prio_plus.Field.{Field}
use prio_plus.Share.{ClientPacket}
use prio_plus.Circuit.{Circuit}
use prio_plus.Snips.{CheckerPreComp, validate_snip}
use prio_plus.Server.Sums.{valid_rows}
use prio_plus.Server.Aggregate.{known_shares, known_bits, and_bits, snip_batch, row_at, with_valid}

-- How many inputs are valid.
abbrev pub count_valid_bits : List Bool → ℕ
count_valid_bits [] = 0
count_valid_bits (v ∷ valid) = bit v + count_valid_bits valid

pub valid_rows-with_valid :
    (K : Field) (rows : List (List ℕ)) (valid : List Bool)
    → length rows ≡ length valid
    → valid_rows K (with_valid rows valid) ≡ count_valid_bits valid
valid_rows-with_valid K [] [] h = refl
valid_rows-with_valid K [] (v ∷ valid) h = absurd (omega (arith, h))
valid_rows-with_valid K (row ∷ rows) [] h = absurd (omega (arith, h))
valid_rows-with_valid K (row ∷ rows) (v ∷ valid) h =
    ap (λ (t : ℕ). bit v + t) (valid_rows-with_valid K rows valid (omega (arith, h)))

module _ (K : Field) {V : Type 0} (fields : V → List ℕ) (packet : V → ClientPacket) (ckt : Circuit)
    (n_roots : ℕ) (pre : CheckerPreComp) (snip_draws : ℕ → ℕ → ℕ) where
  -- Each input is valid exactly when server 0 knows its key and the two servers accept its proof, for
  -- its rows of converted shares.
  abbrev pub AreJudged :
      (i : ℕ) → List (V × Bool) → List V → (p q : List (List ℕ)) → List Bool → Type 0
  AreJudged i [] [] [] [] [] = Unit {0}
  AreJudged i ((v0, known) ∷ subs0) (v1 ∷ subs1) (row0 ∷ p) (row1 ∷ q) (v ∷ valid) =
      (v ≡ (
        known
        && validate_snip K ckt n_roots pre (packet v0) (packet v1) (row_at row0) (row_at row1)
            (snip_draws i)))
      × AreJudged (suc i) subs0 subs1 p q valid
  AreJudged i _ _ _ _ _ = ⊥

  abbrev pub judge : List (ClientPacket × ClientPacket × (ℕ → ℕ) × (ℕ → ℕ) × (ℕ → ℕ)) → List Bool
  judge batch =
      map (λ (p0, p1, s0, s1, draws). validate_snip K ckt n_roots pre p0 p1 s0 s1 draws) batch

  pub batch-AreJudged :
      (i : ℕ) (subs0 : List (V × Bool)) (subs1 : List V) (p q : List (List ℕ))
      → length (known_shares subs0) ≡ length subs1
      → length p ≡ length subs1
      → length q ≡ length subs1
      → (let valid =
            and_bits
              (known_bits subs0)
              (judge (snip_batch fields packet i snip_draws subs0 subs1 p q)) in
          AreJudged i subs0 subs1 p q valid × (length valid ≡ length subs1))
  batch-AreJudged i [] [] [] [] h hp hq = (tt, refl)
  batch-AreJudged i ((v0, known) ∷ subs0) (v1 ∷ subs1) (row0 ∷ p) (row1 ∷ q) h hp hq =
      let ih =
        batch-AreJudged (suc i) subs0 subs1 p q (omega (arith, h)) (omega (arith, hp))
          (omega (arith, hq)) in
      ((refl, ih.0), ap suc ih.1)
  batch-AreJudged i [] (v1 ∷ subs1) p q h hp hq = absurd (omega (arith, h))
  batch-AreJudged i (s ∷ subs0) [] p q h hp hq = absurd (omega (arith, h))
  batch-AreJudged i [] [] (row ∷ p) q h hp hq = absurd (omega (arith, hp))
  batch-AreJudged i [] [] [] (row ∷ q) h hp hq = absurd (omega (arith, hq))
  batch-AreJudged i (s ∷ subs0) (v1 ∷ subs1) [] q h hp hq = absurd (omega (arith, hp))
  batch-AreJudged i (s ∷ subs0) (v1 ∷ subs1) (row ∷ p) [] h hp hq = absurd (omega (arith, hq))
