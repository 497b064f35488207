-- ===== src/Correlated/Queues.antt =====
-- The stores of the two servers stay in step: their queues hold matching halves, and neither
-- server ever takes from an empty queue.
pub mod Triples
pub mod DaBits
use prio_plus.Base.{
  ℕ, zero, suc, ◌+◌, ◌-◌, ◌<◌, ◌≤◌, ◌≡◌, ◌%◌, ◌/◌, ◌*◌, refl, ap, ◌∙◌, sym, Bool, true, false, List,
  [], ◌∷◌, ◌++◌, length, xor, bit, ltb, if◌then◌else◌, arith, Option, some, none, Cong, ◌▸◌,
  cong_of_eq, Matched, Matched-length, Matched-append, length-append, Bool-cases, inl, inr, ltb→lt,
  ◌==◌,
}
use prio_plus.Field.{Field}
use prio_plus.Share.{BooleanBeaverTriple, DaBit, make_local_dabit}
use prio_plus.Share.DaBits.{IsDaBit, make_local_dabit-IsDaBit, InRange}
use prio_plus.Ot.BoolTriples.{IsBoolTriple}
use prio_plus.Correlated.{
  Store, Supply, add_bool_triples, check_bool_triples, get_bool_triple, lazy_dabits, add_dabits,
  check_dabits, get_dabit, maybe_update,
}

pub ltb-false : (a b : ℕ) → ltb a b ≡ false → b ≤ a
ltb-false a b h = ground arith

module _ (K : Field) where
  open K use {modulus}

  -- The two halves of a daBit hide the same bit.
  abbrev pub AreHalves : DaBit → DaBit → Type 0
  AreHalves d0 d1 = Cong modulus (d0.bp + d1.bp) (bit (xor d0.b2 d1.b2))

  -- The joint protocols make matching halves, as many as are asked for.
  pub record SuppliesMatch (S0 S1 : Supply) : Type 0 where
    pub odd : modulus % 2 ≡ 1
    pub triples : (n : ℕ) → Matched IsBoolTriple (S0.bool_triples n) (S1.bool_triples n)
    pub triple_count : (n : ℕ) → length (S0.bool_triples n) ≡ n
    pub dabits : (n : ℕ) → Matched AreHalves (S0.dabits n) (S1.dabits n)
    pub dabit_count : (n : ℕ) → length (S0.dabits n) ≡ n
    pub same_draws : (n : ℕ) → S0.lazy_draws n ≡ S1.lazy_draws n
    pub draws_fit : (n : ℕ) → InRange K (S0.lazy_draws n)
    pub draw_count : (n : ℕ) → length (S0.lazy_draws n) ≡ n

  pub record StoresMatch (s0 s1 : Store) : Type 0 where
    pub batch : s0.batch_size ≡ s1.batch_size
    pub mode : s0.lazy ≡ s1.lazy
    pub first : s0.server_num ≡ 0
    pub second : s1.server_num ≡ 1
    pub triples : Matched IsBoolTriple s0.btriple_store s1.btriple_store
    pub dabits : Matched AreHalves s0.dabit_store s1.dabit_store
