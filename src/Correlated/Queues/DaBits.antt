-- ===== src/Correlated/Queues/DaBits.antt =====
-- Filling the two stores with daBits.
use prio_plus.Base.{
  ℕ, suc, ◌+◌, ◌-◌, ◌≤◌, ◌≡◌, ◌%◌, ◌/◌, ◌*◌, refl, ap, ◌∙◌, sym, Bool, true, false, List, [], ◌∷◌,
  length, ltb, if◌then◌else◌, bit, ◌⊎◌, arith, ◌▸◌, cong_of_eq, Matched, Matched-length,
  Matched-append, length-append, Bool-cases, inl, inr, ltb→lt,
}
use mathlib.Core.Path.{ap₂}
use prio_plus.Field.{Field}
use prio_plus.Share.{DaBit}
use prio_plus.Share.DaBits.{make_local_dabit-IsDaBit, InRange}
use prio_plus.Correlated.{Store, Supply, lazy_dabits, add_dabits, check_dabits, maybe_update}
use prio_plus.Correlated.Queues.{AreHalves, SuppliesMatch, StoresMatch, ltb-false}

module _ (K : Field) where
  open K use {modulus}

  lazy_dabits-Matched :
      (ds : List (ℕ × ℕ))
      → modulus % 2 ≡ 1
      → InRange K ds
      → Matched (AreHalves K) (lazy_dabits K 0 ds) (lazy_dabits K 1 ds)
        × (length (lazy_dabits K 0 ds) ≡ length ds)
  unfolding lazy_dabits
  lazy_dabits-Matched [] odd h = (tt, refl)
  lazy_dabits-Matched ((b, draw) ∷ ds) odd h =
      let d = make_local_dabit-IsDaBit K b draw odd h.0 h.1 in
      let ih = lazy_dabits-Matched ds odd h.2 in
      ((d.arithmetic ▸ cong_of_eq modulus (sym d.boolean), ih.0), ap suc ih.1)

  module _ (S0 S1 : Supply) (supply : SuppliesMatch K S0 S1) where
    -- The daBits that both servers add, for either way to make them.
    abbrev new_dabits : Supply → (lazy : Bool) (server_num n : ℕ) → List DaBit
    new_dabits S lazy server_num n =
        if lazy then lazy_dabits K server_num (S.lazy_draws n) else S.dabits n

    new_dabits-Matched :
        (lazy : Bool) (n : ℕ)
        → Matched (AreHalves K) (new_dabits S0 lazy 0 n) (new_dabits S1 lazy 1 n)
          × (length (new_dabits S0 lazy 0 n) ≡ n)
    new_dabits-Matched true n =
        let h = lazy_dabits-Matched (S0.lazy_draws n) supply.odd (supply.draws_fit n) in
        rw (← supply.same_draws n) (h.0, h.1 ∙ supply.draw_count n)
    new_dabits-Matched false n = (supply.dabits n, supply.dabit_count n)

    add_dabits-StoresMatch :
        (n : ℕ) (s0 s1 : Store)
        → StoresMatch K s0 s1
        → StoresMatch K (add_dabits K S0 n s0) (add_dabits K S1 n s1)
          × (length (add_dabits K S0 n s0).dabit_store ≡ length s0.dabit_store + n)
    unfolding add_dabits
    add_dabits-StoresMatch n s0 s1 h =
        let m = new_dabits-Matched s0.lazy n in
        let new0 = new_dabits S0 s0.lazy 0 n in
        let new1 = new_dabits S1 s0.lazy 1 n in
        (
          record {
            batch = h.batch;
            mode = h.mode;
            first = h.first;
            second = h.second;
            triples = h.triples;
            dabits =
                rw (← h.mode, h.first, h.second)
                  (Matched-append (AreHalves K) s0.dabit_store s1.dabit_store new0 new1 h.dabits
                    m.0);
          },
          rw h.first (omega (arith, length-append s0.dabit_store new0, m.1)),
        )

    -- `checkDaBits` on both servers keeps the stores in step and leaves enough daBits.
    pub check_dabits-StoresMatch :
        (n : ℕ) (s0 s1 : Store)
        → StoresMatch K s0 s1
        → StoresMatch K (check_dabits K S0 n s0) (check_dabits K S1 n s1)
          × (n ≤ length (check_dabits K S0 n s0).dabit_store)
    unfolding check_dabits
    check_dabits-StoresMatch n s0 s1 h =
        let e = Matched-length (AreHalves K) s0.dabit_store s1.dabit_store h.dabits in
        let k = n - length s0.dabit_store in
        rw (← e) (elim (Bool-cases (ltb (length s0.dabit_store) n)) [
          | inl few ↦
              let added = add_dabits-StoresMatch k s0 s1 h in
              rw few (added.0, omega (arith, added.1, ltb→lt _ _ few))
          | inr many ↦ rw many (h, ltb-false _ _ many)
        ])

    no_target : (n b : ℕ) → ltb n (0 * b) ≡ false
    no_target n b = ground arith

    abbrev top_up : Supply → (target : ℕ) → Store → Store
    top_up S target s = if ltb (length s.dabit_store) target then add_dabits K S target s else s

    abbrev target_of : (stored batch : ℕ) → ℕ
    target_of stored batch = 2 * bit (ltb stored (batch / 2)) * batch

    maybe_update_as_top_up :
        (S : Supply) (s : Store)
        → maybe_update K S s ≡ top_up S (target_of (length s.dabit_store) s.batch_size) s
    unfolding maybe_update
    maybe_update_as_top_up S s = rw (no_target (length s.btriple_store) s.batch_size)

    top_up-StoresMatch :
        (target : ℕ) (s0 s1 : Store)
        → StoresMatch K s0 s1
        → StoresMatch K (top_up S0 target s0) (top_up S1 target s1)
          × (target ≤ length (top_up S0 target s0).dabit_store)
    top_up-StoresMatch target s0 s1 h =
        let e = Matched-length (AreHalves K) s0.dabit_store s1.dabit_store h.dabits in
        rw (← e) (elim (Bool-cases (ltb (length s0.dabit_store) target)) [
          | inl few ↦
              let added = add_dabits-StoresMatch target s0 s1 h in
              rw few (added.0, omega (arith, added.1))
          | inr many ↦ rw many (h, ltb-false _ _ many)
        ])

    half_batch : (n batch : ℕ) → (batch / 2 ≤ n) ⊎ (batch ≤ target_of n batch)
    half_batch n batch = ground arith

    top_up_keeps :
        (target : ℕ) (s : Store) → length s.dabit_store ≤ length (top_up S0 target s).dabit_store
    unfolding add_dabits
    top_up_keeps target s = elim (Bool-cases (ltb (length s.dabit_store) target)) [
      | inl few ↦
          rw few
            (omega (arith, length-append s.dabit_store (new_dabits S0 s.lazy s.server_num target)))
      | inr many ↦ rw many (omega arith)
    ]

    -- `maybeUpdate` on both servers keeps the stores in step, and afterwards each holds at least
    -- half a batch of daBits.
    pub maybe_update-StoresMatch :
        (s0 s1 : Store)
        → StoresMatch K s0 s1
        → StoresMatch K (maybe_update K S0 s0) (maybe_update K S1 s1)
          × (s0.batch_size / 2 ≤ length (maybe_update K S0 s0).dabit_store)
    maybe_update-StoresMatch s0 s1 h =
        let e = Matched-length (AreHalves K) s0.dabit_store s1.dabit_store h.dabits in
        let target = target_of (length s0.dabit_store) s0.batch_size in
        let same : target ≡ target_of (length s1.dabit_store) s1.batch_size =
          ap₂ target_of e h.batch in
        let t = top_up-StoresMatch target s0 s1 h in
        rw (maybe_update_as_top_up S0 s0, maybe_update_as_top_up S1 s1, ← same)
          (
            t.0,
            omega (
              arith,
              t.1,
              top_up_keeps target s0,
              half_batch (length s0.dabit_store) s0.batch_size,
            ),
          )
