-- ===== src/Examples/Counts.antt =====
-- Runs of the hashes and of the operations that count: frequencies and sketches.
use prio_plus.Base.{
  ℕ, zero, suc, ◌+◌, ◌-◌, ◌*◌, ◌/◌, ◌%◌, ◌^◌, ◌<◌, ◌≤◌, ◌≡◌, refl, Bool, true, false, List, [], ◌∷◌,
  some, arith, get_or, xor, sub64, replicate, ltb, if◌then◌else◌, ◌==◌, ◌&&◌, Cong,
}
use mathlib.Core.List.Permᴰ
use native.Mathlib.Nat.{mod-lt}
use prio_plus.Field.Native.{small_field}
use prio_plus.Correlated.{Store}
use prio_plus.Correlated.Queues.{StoresMatch}
use prio_plus.Hash.{HashLib, HashStore, hash_store, hash_eval}
use prio_plus.Hash.Values.{poly, hash_eval-poly, hash_store-bits}
use prio_plus.Server.{Shares, ret_ans, ret_invalid, collect_shares}
use prio_plus.Server.Sums.{valid_sum, valid_rows}
use prio_plus.Server.Aggregate.{find_shares}
use prio_plus.Server.Freq.{freq_op}
use prio_plus.Server.Freq.Counts.{diff_rows}
use prio_plus.Server.Freq.Answers.{counted_rows, freq_op_lem}
use prio_plus.Server.CountMin.{sketch_valid, countmin_op}
use prio_plus.Server.CountMin.Checks.{segment_total, sketch_valid-last}
use prio_plus.Server.CountMin.Sketches.{count_of, IsSketch}
use prio_plus.Server.CountMin.Answers.{countmin_op-bounds}
use prio_plus.Client.{FreqRequest}
use prio_plus.Examples.{supply0, supply1, supply-SuppliesMatch, store, store-StoresMatch}

abbrev bool_order : Shares (ℕ → Bool) → Shares (ℕ → Bool)
bool_order m = m

abbrev unset : ℕ → Bool
unset i = false

-- The first array has its bit at 0, the second at 1.
abbrev flags : (a b : Bool) → ℕ → Bool
flags a b zero = a
flags a b (suc j) = b

abbrev flags0 : Shares (ℕ → Bool)
flags0 = (5, flags true false) ∷ (7, flags true true) ∷ []

abbrev flags1 : Shares (ℕ → Bool)
flags1 = (5, flags false false) ∷ (7, flags true false) ∷ []

freq_op_example :
    (let rows = counted_rows small_field 2 3 unset flags0 flags1 in
      (sums : List ℕ) × (t0 : Store) × (t1 : Store) × (freq_op small_field supply0 supply1
          bool_order 1 3 unset flags0 flags1
          (store 0)
          (store 1)
        ≡ some (
          if ltb (2 * valid_rows small_field rows) 3 then ret_invalid else ret_ans sums,
          (t0, t1),
        ))
      × ((j : ℕ)
          → (get_or sums j 0 < 13) × Cong 13 (get_or sums j 0) (valid_sum small_field rows j))
      × StoresMatch small_field t0 t1)
unfolding collect_shares
freq_op_example =
    freq_op_lem small_field supply0 supply1 supply-SuppliesMatch bool_order 1 3 unset flags0 flags1
      (store 0) (store 1) store-StoresMatch (omega arith)

abbrev freq_requests : List FreqRequest
freq_requests =
    record { pk = 21; word = 8; arr = flags true false }
    ∷ record { pk = 34; word = 5; arr = flags true true }
    ∷ record { pk = 55; word = 3; arr = flags false true }
    ∷ []

abbrev hash_lib : HashLib
hash_lib = record {
  fmpz_randm = λ n m. n % m;
  fmpz_fdiv_q_2exp = λ a n. a / 2 ^ n;
  fmpz_randm-lt = λ n m pos. mod-lt n pos;
  fmpz_fdiv_q_2exp_lem = λ a n. refl;
}

hash_eval_example :
    (let h = hash_store hash_lib 2 4 3 2 in
      (hash_eval small_field hash_lib h 1 6
        ≡ (poly h.degree (h.coeff 1) 6 % 2 ^ 4 / 2 ^ sub64 4 h.w_bits + h.coeff 1 0) % 3)
      × (hash_eval small_field hash_lib h 1 6 < 3))
hash_eval_example = hash_eval-poly small_field hash_lib 2 4 3 2 1 6 (omega arith) (omega arith)

hash_store_example :
    (let bits = (hash_store hash_lib 2 4 3 2).w_bits in (3 ≤ 2 ^ bits) × (2 ^ (bits - 1) < 3))
hash_store_example = hash_store-bits hash_lib 2 4 3 2 (omega arith) (omega arith)

abbrev bool_row : (a b c d : Bool) → List Bool
bool_row a b c d = a ∷ b ∷ c ∷ d ∷ []

-- The first row of the sketch is empty; the check does not see it.
sketch_valid_example :
    (let g =
        segment_total 2 1 (
          diff_rows (bool_row true false true false ∷ []) (bool_row true false false false ∷ [])) in
      sketch_valid small_field 2 2 1
        (true ∷ [])
        (bool_row true false true false ∷ [])
        (bool_row true false false false ∷ [])
        ((4 ∷ 5 ∷ 6 ∷ 7 ∷ []) ∷ [])
        ((9 ∷ 8 ∷ 8 ∷ 6 ∷ []) ∷ [])
      ≡ replicate 1 ((g % 2 == 1 % 2) && (g % 13 == 1)))
unfolding xor
sketch_valid_example =
    sketch_valid-last small_field 4 1 2 1 (true ∷ []) (bool_row true false true false ∷ [])
      (bool_row true false false false ∷ []) ((4 ∷ 5 ∷ 6 ∷ 7 ∷ []) ∷ []) ((9 ∷ 8 ∷ 8 ∷ 6 ∷ []) ∷ [])
      refl (refl, tt) (refl, tt)
      (
        (
          record { same = refl },
          (record { same = refl }, (record { same = refl }, (record { same = refl }, tt))),
        ),
        tt,
      )

abbrev sketch_store : HashStore
sketch_store = hash_store hash_lib 1 1 2 2

zero-IsSketch : IsSketch small_field hash_lib sketch_store 2 0 (1 ∷ 0 ∷ [])
unfolding hash_store hash_eval
zero-IsSketch zero zero a b = refl
zero-IsSketch zero (suc zero) a b = refl
zero-IsSketch zero (suc (suc k)) a b = absurd (omega (arith, b))
zero-IsSketch (suc j) k a b = absurd (omega (arith, a))

one-IsSketch : IsSketch small_field hash_lib sketch_store 2 1 (0 ∷ 1 ∷ [])
unfolding hash_store hash_eval
one-IsSketch zero zero a b = refl
one-IsSketch zero (suc zero) a b = refl
one-IsSketch zero (suc (suc k)) a b = absurd (omega (arith, b))
one-IsSketch (suc j) k a b = absurd (omega (arith, a))

countmin_op_example :
    (est : List ℕ) × (t0 : Store) × (t1 : Store) × (countmin_op small_field hash_lib
        (λ v. v)
        supply0
        supply1
        bool_order
        1
        2
        1
        2
        flags0
        flags1
        (store 0)
        (store 1)
      ≡ some (ret_ans est, (t0, t1)))
    × (count_of 1 (0 ∷ 1 ∷ []) ≤ get_or est 1 0)
    × (get_or est 1 0 ≤ 2)
unfolding collect_shares find_shares xor
countmin_op_example =
    countmin_op-bounds small_field hash_lib (λ v. v) (λ v h. refl) supply0 supply1
      supply-SuppliesMatch bool_order 0 2 1 1 (0 ∷ 1 ∷ []) flags0 flags1 (store 0) (store 1)
      store-StoresMatch (omega arith) (omega arith) (omega arith) (omega arith, omega arith)
      (omega arith) (omega arith) (zero-IsSketch, (one-IsSketch, tt))
