-- ===== src/Server/CountMin/Answers.antt =====
-- `countMin_op`: the estimates for honest clients.
use prio_plus.Base.{
  ◌≤◌, ℕ, suc, ◌+◌, ◌*◌, ◌%◌, ◌^◌, ◌<◌, ◌≡◌, refl, ◌∙◌, sym, Bool, true, false, List, [], Option,
  some, arith, length, get_or, table, replicate, ltb, if◌then◌else◌, ◌==◌, ==_iff, u64, length-map,
  eq_of_cong,
}
use native.Mathlib.Nat.{mod-eq_of_lt}
use prio_plus.Field.{Field}
use prio_plus.Correlated.{Store, Supply}
use prio_plus.Correlated.Queues.{SuppliesMatch, StoresMatch}
use prio_plus.Hash.{HashLib, HashStore, hash_store, hash_eval}
use prio_plus.Hash.Values.{hash_eval-poly}
use prio_plus.Server.{
  Shares, Answer, ret_ans, ret_invalid, keys, values, collect_shares, accept_all,
}
use prio_plus.Server.Sums.{valid_rows}
use prio_plus.Server.Aggregate.{find_shares, known_bits, known_shares, with_valid, max_val_of}
use prio_plus.Server.Freq.{summed_arrays}
use prio_plus.Server.Freq.Counts.{diff_rows}
use prio_plus.Server.Freq.Answers.{
  rows_of0, rows_of1, length-rows_of, tables-HaveRowLength, summed_arrays_lem,
}
use prio_plus.Server.Freq.Honest.{frequency, all_count, length-diff_rows, length-known_bits}
use prio_plus.Server.CountMin.{sketch_valid, estimate_loop, estimates, countmin_op}
use prio_plus.Server.CountMin.Checks.{segment_total, sketch_valid-last}
use prio_plus.Server.CountMin.Estimates.{read_at, estimate_loop-bounds}
use prio_plus.Server.CountMin.Sketches.{
  count_of, AreSketches, sketches-total, sketches-count, frequency-length, get_or-table_zero,
  IsAsked, asked_below,
}

-- When all rows count, the answer is not refused.
all_answer :
    (K : Field) (rows : List (List ℕ)) (n : ℕ) (sums : List ℕ) (t0 t1 : Store)
    (r : Option (Answer (List ℕ) × (Store × Store)))
    → length rows ≡ n
    → r
      ≡ some (
        if ltb (2 * valid_rows K (with_valid rows (replicate (length rows) true))) n
            then ret_invalid
            else ret_ans sums,
        (t0, t1),
      )
    → r ≡ some (ret_ans sums, (t0, t1))
all_answer K rows n sums t0 t1 r long run =
    let enough : ltb (2 * n) n ≡ false = ground arith in
    rw ((all_count K rows 0).0, long, enough) at run

module _ (K : Field) (S0 S1 : Supply) (supply : SuppliesMatch K S0 S1) where
  -- The sums for sketches: all inputs count.
  sketch-sums :
      (last_j w : ℕ) (m0 entries : Shares (ℕ → Bool)) (s0 s1 : Store)
      → StoresMatch K s0 s1
      → length (values entries) < K.modulus
      → (let width = suc last_j * w in
          let rows = diff_rows (rows_of0 width m0 entries) (rows_of1 width entries) in
          segment_total w last_j rows ≡ length rows)
      → (let width = suc last_j * w in
          let rows = diff_rows (rows_of0 width m0 entries) (rows_of1 width entries) in
          let n = length (values entries) in
          (sums : List ℕ) × (t0 : Store) × (t1 : Store) × (summed_arrays K S0 S1 width n
              (sketch_valid K (suc last_j) w n)
              m0
              entries
              s0
              s1
            ≡ some (ret_ans sums, (t0, t1)))
          × ((i : ℕ) → get_or sums i 0 ≡ frequency rows i))
  sketch-sums last_j w m0 entries s0 s1 h small one =
      let width = suc last_j * w in
      let x0 = rows_of0 width m0 entries in
      let x1 = rows_of1 width entries in
      let rows = diff_rows x0 x1 in
      let n = length (values entries) in
      let subs0 = find_shares (keys entries) m0 (λ j. false) in
      let same = length-rows_of width m0 entries in
      let long : length rows ≡ n =
        length-diff_rows x0 x1 same ∙ length-map (values entries) (table width 0) in
      let g : segment_total w last_j rows ≡ n = one ∙ long in
      let t : (n % 2 == n % 2) ≡ true = (==_iff _ _).1 refl in
      let u : (n % K.modulus == n) ≡ true = (==_iff _ _).1 (mod-eq_of_lt small) in
      let known : length (known_bits subs0) ≡ length rows =
        length-known_bits m0 entries ∙ sym long in
      let (sums, t0, t1, run, at_place, _) =
        summed_arrays_lem K S0 S1 supply width n (sketch_valid K (suc last_j) w n)
          (replicate (length rows) true) m0 entries s0 s1 h
          (λ p q summed.
            sketch_valid-last K width last_j w n (known_bits subs0) x0 x1 p q same
              (tables-HaveRowLength width (known_shares subs0))
              (tables-HaveRowLength width (values entries)) summed
            ∙ rw (g, t, u, known) refl) in
      (
        sums,
        t0,
        t1,
        all_answer K rows n sums t0 t1 _ long run,
        λ i.
            let below : frequency rows i < K.modulus =
              omega (arith, frequency-length x0 x1 i, long, small) in
            let same_i = rw ((all_count K rows i).1) at (at_place i).1 in
            eq_of_cong (at_place i).0 below same_i,
      )

estimates-at :
    (K : Field) (L : HashLib) (get_ui : ℕ → ℕ) (h : HashStore) (n num_bits x : ℕ) (a : List ℕ)
    → IsAsked num_bits x
    → get_or (estimates K L get_ui h n num_bits a) x 0
      ≡ estimate_loop K L get_ui h a h.w x h.d 0 (n % 2 ^ 32)
unfolding estimates
estimates-at K L get_ui h n num_bits x a asked =
    get_or-table_zero (if ltb (max_val_of num_bits) 256 then max_val_of num_bits else 256) x
      (λ y. estimate_loop K L get_ui h a h.w y h.d 0 (n % 2 ^ 32)) (asked_below num_bits x asked)

module _ (K : Field) (L : HashLib) (get_ui : ℕ → ℕ) (words : (v : ℕ) → v < u64 → get_ui v ≡ v) where
  -- The estimates from counts of sketches.
  estimates-bounds :
      (last_j w num_bits x n : ℕ) (vs : List ℕ) (x0 x1 : List (List Bool)) (sums : List ℕ)
      → 0 < w
      → w ≤ 2 ^ 31
      → num_bits < 64
      → IsAsked num_bits x
      → n < 2 ^ 31
      → length (diff_rows x0 x1) ≡ n
      → AreSketches K L (hash_store L (suc last_j) num_bits w 2) w vs (diff_rows x0 x1)
      → ((i : ℕ) → get_or sums i 0 ≡ frequency (diff_rows x0 x1) i)
      → (let est = estimates K L get_ui (hash_store L (suc last_j) num_bits w 2) n num_bits sums in
          (count_of x vs ≤ get_or est x 0) × (get_or est x 0 ≤ n))
  unfolding hash_store
  estimates-bounds last_j w num_bits x n vs x0 x1 sums pos word bits asked few long sketches
        at_place =
      let rows = diff_rows x0 x1 in
      let store = hash_store L (suc last_j) num_bits w 2 in
      let below_w : (j v : ℕ) → hash_eval K L store j v < w =
        λ j v. (hash_eval-poly K L (suc last_j) num_bits w 2 j v pos bits).1 in
      let reads : (i : ℕ)
          → i < 0 + suc last_j
          → (count_of x vs ≤ read_at K L get_ui store sums w x 0 0 i)
            × (read_at K L get_ui store sums w x 0 0 i < 2 ^ 31) =
        λ i lt.
          let place = i * w + hash_eval K L store i x in
          let hashed = words (hash_eval K L store i x) (omega (arith, below_w i x, word)) in
          let most = frequency-length x0 x1 place in
          let read = words (frequency rows place) (omega (arith, most, long, few)) in
          let least =
            sketches-count K L store w vs rows i x (omega (arith, lt)) (below_w i) sketches in
          rw (hashed, at_place place, read) (least, omega (arith, most, long, few)) in
      let small_hash : (i : ℕ) → i < 0 + suc last_j → get_ui (hash_eval K L store i x) < 2 ^ 31 =
        λ i lt.
          let below = below_w i x in
          rw (words (hash_eval K L store i x) (omega (arith, below, word)))
            (omega (arith, below, word)) in
      let whole : n % 2 ^ 32 ≡ n = omega (arith, few) in
      let lowest = sketches-count K L store w vs rows 0 x (omega arith) (below_w 0) sketches in
      let count_le : count_of x vs ≤ n =
        omega (arith, lowest, frequency-length x0 x1 (0 * w + hash_eval K L store 0 x), long) in
      let b =
        estimate_loop-bounds K L get_ui store sums w x (count_of x vs) n (suc last_j) 0 (n % 2 ^ 32)
          reads small_hash (rw whole count_le) (omega (arith, whole)) few in
      rw (estimates-at K L get_ui store n num_bits x sums asked) b

module _ (K : Field) (L : HashLib) (get_ui : ℕ → ℕ) (words : (v : ℕ) → v < u64 → get_ui v ≡ v)
    (S0 S1 : Supply) (supply : SuppliesMatch K S0 S1) where
  -- When the shared arrays are the sketches of the values `vs`, there are `total_inputs` of them, and
  -- that number is below `Int_Modulus` and 2 ^ 31, for a range of at most 2 ^ 31, `countMin_op` answers; its estimate for a value
  -- that is asked for is at least the number of the clients with that value, and at most the number
  -- of all clients.
  pub countmin_op-bounds :
      (order : Shares (ℕ → Bool) → Shares (ℕ → Bool)) (last_j w num_bits x : ℕ) (vs : List ℕ)
      (inputs0 inputs1 : Shares (ℕ → Bool)) (s0 s1 : Store)
      → StoresMatch K s0 s1
      → 0 < w
      → w ≤ 2 ^ 31
      → num_bits < 64
      → IsAsked num_bits x
      → length (values (order (collect_shares accept_all inputs1 []))) < K.modulus
      → length (values (order (collect_shares accept_all inputs1 []))) < 2 ^ 31
      → (let m0 = collect_shares accept_all inputs0 [] in
          let entries = order (collect_shares accept_all inputs1 []) in
          let width = suc last_j * w in
          AreSketches K L
            (hash_store L (suc last_j) num_bits w 2)
            w
            vs
            (diff_rows (rows_of0 width m0 entries) (rows_of1 width entries)))
      → (let n = length (values (order (collect_shares accept_all inputs1 []))) in
          (est : List ℕ) × (t0 : Store) × (t1 : Store) × (countmin_op K L get_ui S0 S1 order
              (suc last_j)
              w
              num_bits
              n
              inputs0
              inputs1
              s0
              s1
            ≡ some (ret_ans est, (t0, t1)))
          × (count_of x vs ≤ get_or est x 0)
          × (get_or est x 0 ≤ n))
  unfolding countmin_op hash_store
  countmin_op-bounds order last_j w num_bits x vs inputs0 inputs1 s0 s1 h pos word bits asked small
        few sketches =
      let m0 = collect_shares accept_all inputs0 [] in
      let entries = order (collect_shares accept_all inputs1 []) in
      let width = suc last_j * w in
      let x0 = rows_of0 width m0 entries in
      let x1 = rows_of1 width entries in
      let rows = diff_rows x0 x1 in
      let n = length (values entries) in
      let store = hash_store L (suc last_j) num_bits w 2 in
      let long : length rows ≡ n =
        length-diff_rows x0 x1 (length-rows_of width m0 entries)
        ∙ length-map (values entries) (table width 0) in
      let one =
        sketches-total K L store w vs rows last_j (omega arith)
          (λ v. (hash_eval-poly K L (suc last_j) num_bits w 2 last_j v pos bits).1) sketches in
      let (sums, t0, t1, run, at_place) =
        sketch-sums K S0 S1 supply last_j w m0 entries s0 s1 h small one in
      let b =
        estimates-bounds K L get_ui words last_j w num_bits x n vs x0 x1 sums pos word bits asked
          few long sketches at_place in
      (estimates K L get_ui store n num_bits sums, t0, t1, rw run refl, b.0, b.1)
