-- ===== src/Correlated/Queues/Triples.antt =====
-- Taking Boolean triples from the two stores.
use prio_plus.Base.{
  ℕ, ◌+◌, ◌-◌, ◌≤◌, ◌≡◌, refl, ap, List, [], ◌∷◌, length, ltb, if◌then◌else◌, arith, some, Matched,
  Matched-length, Matched-append, length-append, Bool-cases, inl, inr, ltb→lt,
}
use prio_plus.Field.{Field}
use prio_plus.Share.{BooleanBeaverTriple}
use prio_plus.Ot.BoolTriples.{IsBoolTriple}
use prio_plus.Correlated.{Store, Supply, add_bool_triples, check_bool_triples, get_bool_triple}
use prio_plus.Correlated.Queues.{SuppliesMatch, StoresMatch, ltb-false}

module _ (K : Field) where
  open K use {modulus}

  module _ (S0 S1 : Supply) (supply : SuppliesMatch K S0 S1) where
    add_bool_triples-StoresMatch :
        (n : ℕ) (s0 s1 : Store)
        → StoresMatch K s0 s1
        → StoresMatch K (add_bool_triples S0 n s0) (add_bool_triples S1 n s1)
    unfolding add_bool_triples
    add_bool_triples-StoresMatch n s0 s1 h =
        let k = if ltb s0.batch_size n then n else s0.batch_size in
        record {
          batch = h.batch;
          mode = h.mode;
          first = h.first;
          second = h.second;
          triples = rw (← h.batch) (
              Matched-append IsBoolTriple s0.btriple_store s1.btriple_store (S0.bool_triples k)
                (S1.bool_triples k) h.triples (supply.triples k));
          dabits = h.dabits;
        }

    length-add_bool_triples :
        (n : ℕ) (s : Store)
        → length s.btriple_store + n ≤ length (add_bool_triples S0 n s).btriple_store
    unfolding add_bool_triples
    length-add_bool_triples n s =
        let k = if ltb s.batch_size n then n else s.batch_size in
        let le : n ≤ k = ground arith in
        omega (arith, length-append s.btriple_store (S0.bool_triples k), supply.triple_count k)

    -- `checkBoolTriples` on both servers keeps the stores in step and leaves enough triples.
    pub check_bool_triples-StoresMatch :
        (n : ℕ) (s0 s1 : Store)
        → StoresMatch K s0 s1
        → StoresMatch K (check_bool_triples S0 n s0) (check_bool_triples S1 n s1)
          × (n ≤ length (check_bool_triples S0 n s0).btriple_store)
    unfolding check_bool_triples
    check_bool_triples-StoresMatch n s0 s1 h =
        let e = Matched-length IsBoolTriple s0.btriple_store s1.btriple_store h.triples in
        let k = n - length s0.btriple_store in
        rw (← e) (elim (Bool-cases (ltb (length s0.btriple_store) n)) [
          | inl few ↦ rw few (
            add_bool_triples-StoresMatch k s0 s1 h,
            omega (arith, length-add_bool_triples k s0, ltb→lt _ _ few),
          )
          | inr many ↦ rw many (h, ltb-false _ _ many)
        ])

    -- What one `getBoolTriple` on each server gives.
    pub record TriplesTaken (s0 s1 : Store) : Type 0 where
      pub t0 : BooleanBeaverTriple
      pub t1 : BooleanBeaverTriple
      pub rest0 : Store
      pub rest1 : Store
      pub taken0 : get_bool_triple S0 s0 ≡ some (t0, rest0)
      pub taken1 : get_bool_triple S1 s1 ≡ some (t1, rest1)
      pub multiplies : IsBoolTriple t0 t1
      pub in_step : StoresMatch K rest0 rest1

    front_checked :
        (c0 c1 : Store) (q0 q1 : List BooleanBeaverTriple)
        → StoresMatch K c0 c1
        → 1 ≤ length c0.btriple_store
        → c0.btriple_store ≡ q0
        → c1.btriple_store ≡ q1
        → (t0 t1 : BooleanBeaverTriple) × (r0 r1 : List BooleanBeaverTriple) × (c0.btriple_store
            ≡ t0 ∷ r0)
          × (c1.btriple_store ≡ t1 ∷ r1)
          × IsBoolTriple t0 t1
          × Matched IsBoolTriple r0 r1
    front_checked c0 c1 [] q1 h le e0 e1 = absurd (omega (arith, ap length e0))
    front_checked c0 c1 (t0 ∷ r0) [] h le e0 e1 = absurd (rw (e0, e1) at h.triples)
    front_checked c0 c1 (t0 ∷ r0) (t1 ∷ r1) h le e0 e1 =
        let m = rw (e0, e1) at h.triples in (t0, t1, r0, r1, e0, e1, m.0, m.1)

    -- `getBoolTriple` succeeds on both servers, with halves of one triple.
    pub get_bool_triple-TriplesTaken : (s0 s1 : Store) → StoresMatch K s0 s1 → TriplesTaken s0 s1
    unfolding get_bool_triple
    get_bool_triple-TriplesTaken s0 s1 h =
        let c0 = check_bool_triples S0 1 s0 in
        let c1 = check_bool_triples S1 1 s1 in
        let c = check_bool_triples-StoresMatch 1 s0 s1 h in
        let (t0, t1, r0, r1, e0, e1, good, rest) = front_checked c0 c1 _ _ c.0 c.1 refl refl in
        record {
          t0 = t0;
          t1 = t1;
          rest0 = record c0 { btriple_store = r0 };
          rest1 = record c1 { btriple_store = r1 };
          taken0 = rw e0;
          taken1 = rw e1;
          multiplies = good;
          in_step = record {
            batch = c.0.batch;
            mode = c.0.mode;
            first = c.0.first;
            second = c.0.second;
            triples = rest;
            dabits = c.0.dabits;
          };
        }
