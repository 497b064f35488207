-- ===== src/Correlated/Supplies.antt =====
-- What the two servers' stores are refilled with: the triples of `gen_boolean_beaver_triples`, the
-- daBits of `generateDaBit`, and the draws of the daBits that server 0 makes for both.
use prio_plus.Base.{
  ℕ, suc, ◌+◌, ◌*◌, ◌%◌, ◌≤◌, ◌≡◌, refl, ap, ◌∙◌, sym, Bool, List, [], ◌∷◌, length, arith, u64,
}
use prio_plus.Field.{Field}
use prio_plus.Share.DaBits.{InRange}
use prio_plus.Ot.{
  Emp, choose, bool_triple_words, bool_triple_choices, bool_triples, gen_boolean_beaver_triples,
}
use prio_plus.Ot.BitSum.{ot_transfer_lem}
use prio_plus.Ot.BoolTriples.{gen_boolean_beaver_triples-AreBoolTriples}
use prio_plus.Correlated.{Supply, dabit_words, dabits_of_words, firsts, generate_dabit}
use prio_plus.Correlated.Queues.{SuppliesMatch}
use prio_plus.Correlated.Generation.{generate_dabit-Matched}

-- What the random generators return for each number of triples or of daBits.
pub record Randomness : Type 0 where
  pub triple_bits0 : ℕ → List (Bool × Bool × Bool)
  pub triple_bits1 : ℕ → List (Bool × Bool × Bool)
  pub dabit_draws0 : ℕ → List (Bool × ℕ)
  pub dabit_bits1 : ℕ → List Bool
  pub lazy_draws : ℕ → List (ℕ × ℕ)

-- The supplies of the two servers, made by their joint protocols.
unfoldable pub supplies : Field → Emp → Randomness → Supply × Supply
supplies K E r = (
  record {
    bool_triples = λ n. (gen_boolean_beaver_triples E (r.triple_bits0 n) (r.triple_bits1 n)).0;
    dabits = λ n. (generate_dabit E K.modulus (r.dabit_draws0 n) (r.dabit_bits1 n)).0;
    lazy_draws = r.lazy_draws;
  },
  record {
    bool_triples = λ n. (gen_boolean_beaver_triples E (r.triple_bits0 n) (r.triple_bits1 n)).1;
    dabits = λ n. (generate_dabit E K.modulus (r.dabit_draws0 n) (r.dabit_bits1 n)).1;
    lazy_draws = r.lazy_draws;
  },
)

-- As many values are drawn as are asked for, and the draws of lazy daBits are in range.
pub record AreEnough (K : Field) (r : Randomness) : Type 0 where
  pub triples0 : (n : ℕ) → length (r.triple_bits0 n) ≡ n
  pub triples1 : (n : ℕ) → length (r.triple_bits1 n) ≡ n
  pub dabits0 : (n : ℕ) → length (r.dabit_draws0 n) ≡ n
  pub dabits1 : (n : ℕ) → length (r.dabit_bits1 n) ≡ n
  pub lazy : (n : ℕ) → length (r.lazy_draws n) ≡ n
  pub in_range : (n : ℕ) → InRange K (r.lazy_draws n)

length-choose :
    (ts : List (Bool × Bool × Bool)) (us : List (Bool × Bool × Bool))
    → length ts ≡ length us
    → (let w = bool_triple_words us in
        length (bool_triples ts (choose w.0 w.1 (bool_triple_choices ts))) ≡ length ts)
unfolding bool_triple_words bool_triples bool_triple_choices
length-choose [] us h = refl
length-choose (t ∷ ts) [] h = absurd (omega arith)
length-choose (t ∷ ts) (u ∷ us) h = ap suc (length-choose ts us (omega arith))

length-triples :
    (E : Emp) (ts us : List (Bool × Bool × Bool))
    → length ts ≡ length us
    → length (gen_boolean_beaver_triples E ts us).0 ≡ length ts
unfolding gen_boolean_beaver_triples
length-triples E ts us h =
    rw (ot_transfer_lem E _ _ (bool_triple_choices ts)) (length-choose ts us h)

length-words :
    (m : ℕ) (ds : List (Bool × ℕ))
    → length (dabits_of_words m (firsts ds) (dabit_words m ds).1) ≡ length ds
unfolding dabit_words dabits_of_words
length-words m [] = refl
length-words m (d ∷ ds) = ap suc (length-words m ds)

length-dabits :
    (E : Emp) (m : ℕ) (ds : List (Bool × ℕ)) (bs : List Bool)
    → length (generate_dabit E m ds bs).0 ≡ length ds
unfolding generate_dabit
length-dabits E m ds bs = length-words m ds

-- For an odd modulus with `2 * modulus + 2` at most 2 ^ 64, and enough random values, what the two
-- servers' stores are refilled with matches, place by place, and is as much as is asked for.
pub supplies-SuppliesMatch :
    (K : Field) (E : Emp) (r : Randomness)
    → K.modulus % 2 ≡ 1
    → 2 * K.modulus + 2 ≤ u64
    → AreEnough K r
    → SuppliesMatch K (supplies K E r).0 (supplies K E r).1
unfolding supplies
supplies-SuppliesMatch K E r odd room h =
    let m = K.modulus in
    let t = λ (n : ℕ). h.triples0 n ∙ sym (h.triples1 n) in
    record {
      odd = odd;
      triples = λ n.
          gen_boolean_beaver_triples-AreBoolTriples E (r.triple_bits0 n) (r.triple_bits1 n) (t n);
      triple_count =
          λ n. length-triples E (r.triple_bits0 n) (r.triple_bits1 n) (t n) ∙ h.triples0 n;
      dabits = λ n.
          generate_dabit-Matched m K.modulus_pos room E (r.dabit_draws0 n) (r.dabit_bits1 n)
            (h.dabits0 n ∙ sym (h.dabits1 n));
      dabit_count = λ n. length-dabits E m (r.dabit_draws0 n) (r.dabit_bits1 n) ∙ h.dabits0 n;
      same_draws = λ n. refl;
      draws_fit = h.in_range;
      draw_count = h.lazy;
    }
