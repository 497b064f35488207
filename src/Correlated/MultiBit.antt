-- ===== src/Correlated/MultiBit.antt =====
-- `b2a_daBit_multi`: integers shared by exclusive or become integers shared by a sum.
use prio_plus.Base.{
  xor_value, ℕ, zero, suc, ◌+◌, ◌*◌, ◌/◌, ◌%◌, ◌^◌, ◌-◌, ◌≤◌, ◌≡◌, refl, ap, ◌∙◌, sym, Bool, List,
  [], ◌∷◌, ◌++◌, length, length-append, xor, bit, arith, some, Cong, ◌▸◌, cong_of_eq, cong_refl,
  add-Cong, mul-Cong, u64,
}
use native.Mathlib.Nat.{pow-suc, mod-eq_of_lt, div-div-eq-div-mul, div-one}
use mathlib.Core.Path.{ap₂}
use prio_plus.Field.{Field, add_mod, add_mod-Cong}
use prio_plus.Share.DaBits.{bit-xor}
use prio_plus.Ot.IntSum.Step.{pow_mono, pow_pos}
use prio_plus.Ot.IntSum.Value.{next_power}
use prio_plus.Correlated.{
  Store, Supply, ◌>>=◌, check_dabits, test_bits, bits_of_values, join_bits, join_values,
  num_bits_of, b2a_dabit_multi,
}
use prio_plus.Correlated.Queues.{SuppliesMatch, StoresMatch}
use prio_plus.Correlated.Queues.DaBits.{check_dabits-StoresMatch}
use prio_plus.Correlated.Conversion.{AreSummed, b2a_dabit_single_lem}

pow_word : (j n : ℕ) → j + suc n ≤ 64 → 2 ^ j % u64 ≡ 2 ^ j
pow_word j n h =
    let s : 64 - suc j + suc j ≡ 64 = omega arith in
    mod-eq_of_lt (
      omega (arith, pow_mono (suc j) (64 - suc j), ap (λ (t : ℕ). 2 ^ t) s, pow-suc 2 j, pow_pos j))

halve : (a j : ℕ) → a / 2 ^ j / 2 ≡ a / 2 ^ suc j
halve a j = div-div-eq-div-mul a (2 ^ j) 2 ∙ ap (λ t. a / t) (sym (pow-suc 2 j))

digit : (a b : ℕ) → (a % 2 + b % 2) % 2 ≡ (a + b) % 2
digit a b = omega arith

module _ (K : Field) where
  open K use {modulus}

  tested :
      (a b j : ℕ) → bit (xor (K.fmpz_tstbit a j) (K.fmpz_tstbit b j)) ≡ (a / 2 ^ j + b / 2 ^ j) % 2
  tested a b j =
      bit-xor (K.fmpz_tstbit a j) (K.fmpz_tstbit b j)
      ∙ ap₂ (λ x y. (x + y) % 2) (K.fmpz_tstbit_lem a j) (K.fmpz_tstbit_lem b j)
      ∙ digit (a / 2 ^ j) (b / 2 ^ j)

  join_step :
      (acc0 acc1 p q w d x : ℕ) {total : ℕ}
      → Cong modulus (p + q) d
      → Cong modulus total (add_mod K acc0 (K.fmpz_mul p w) + add_mod K acc1 (K.fmpz_mul q w) + x)
      → Cong modulus total (acc0 + acc1 + w * d + x)
  join_step acc0 acc1 p q w d x h ih =
      ih
      ▸ add-Cong
          (add-Cong (add_mod-Cong K acc0 (K.fmpz_mul p w)) (add_mod-Cong K acc1 (K.fmpz_mul q w)))
          (cong_refl modulus x)
      ▸ cong_of_eq modulus (omega (arith, K.fmpz_mul_lem p w, K.fmpz_mul_lem q w))
      ▸ add-Cong (mul-Cong (cong_refl modulus w) h) (cong_refl modulus (acc0 + acc1 + x))
      ▸ cong_of_eq modulus (omega arith)

  join_bits-Cong :
      (n j a b acc0 acc1 : ℕ) (r0 r1 : List Bool) (t0 t1 : List ℕ)
      → j + n ≤ 64
      → AreSummed K (test_bits K n j a ++ r0) (test_bits K n j b ++ r1) t0 t1
      → (let u0 = join_bits K n j acc0 t0 in
          let u1 = join_bits K n j acc1 t1 in
          Cong modulus (u0.0 + u1.0) (acc0 + acc1 + 2 ^ j * xor_value n (a / 2 ^ j) (b / 2 ^ j))
          × AreSummed K r0 r1 u0.1 u1.1)
  unfolding test_bits join_bits xor_value
  join_bits-Cong zero j a b acc0 acc1 r0 r1 t0 t1 le h = (cong_of_eq modulus (omega arith), h)
  join_bits-Cong (suc n) j a b acc0 acc1 r0 r1 [] t1 le h = absurd h
  join_bits-Cong (suc n) j a b acc0 acc1 r0 r1 (p ∷ t0) [] le h = absurd h
  join_bits-Cong (suc n) j a b acc0 acc1 r0 r1 (p ∷ t0) (q ∷ t1) le h =
      let w = 2 ^ j % u64 in
      let d = (a / 2 ^ j + b / 2 ^ j) % 2 in
      let x = xor_value n (a / 2 ^ suc j) (b / 2 ^ suc j) in
      let ih =
        join_bits-Cong n (suc j) a b (add_mod K acc0 (K.fmpz_mul p w))
          (add_mod K acc1 (K.fmpz_mul q w)) r0 r1 t0 t1 (omega arith) h.1 in
      (
        join_step acc0 acc1 p q w d (2 ^ suc j * x) (h.0 ▸ cong_of_eq modulus (tested a b j)) ih.0
            ▸ cong_of_eq modulus
                (rw (pow_word j n le, halve a j, halve b j) (next_power j d x (acc0 + acc1))),
        ih.1,
      )

  -- The values of the two servers have the same numbers of bits, at most 64.
  abbrev pub SameBits : List (ℕ × ℕ) → List (ℕ × ℕ) → Type 0
  SameBits [] [] = Unit {0}
  SameBits ((a, m) ∷ xs) ((b, n) ∷ ys) = (m ≡ n) × (n ≤ 64) × SameBits xs ys
  SameBits _ _ = ⊥

  -- The results share the exclusive or of the low bits of the two values.
  abbrev pub AreJoined : (x0 x1 : List (ℕ × ℕ)) (p0 p1 : List ℕ) → Type 0
  AreJoined [] [] [] [] = Unit {0}
  AreJoined ((a, m) ∷ xs) ((b, n) ∷ ys) (p ∷ ps) (q ∷ qs) =
      Cong modulus (p + q) (xor_value n a b) × AreJoined xs ys ps qs
  AreJoined _ _ _ _ = ⊥

  length-test_bits : (n j a : ℕ) → length (test_bits K n j a) ≡ n
  unfolding test_bits
  length-test_bits zero j a = refl
  length-test_bits (suc n) j a = ap suc (length-test_bits n (suc j) a)

  same-length :
      (x0 x1 : List (ℕ × ℕ))
      → SameBits x0 x1
      → length (bits_of_values K x0) ≡ length (bits_of_values K x1)
  unfolding bits_of_values
  same-length [] [] h = refl
  same-length [] (y ∷ ys) h = absurd h
  same-length (x ∷ xs) [] h = absurd h
  same-length ((a, m) ∷ xs) ((b, n) ∷ ys) h = omega (
    arith,
    length-append (test_bits K m 0 a) (bits_of_values K xs),
    length-append (test_bits K n 0 b) (bits_of_values K ys),
    length-test_bits m 0 a,
    length-test_bits n 0 b,
    same-length xs ys h.2,
  )

  join_values-AreJoined :
      (x0 x1 : List (ℕ × ℕ)) (t0 t1 : List ℕ)
      → SameBits x0 x1
      → AreSummed K (bits_of_values K x0) (bits_of_values K x1) t0 t1
      → AreJoined x0 x1 (join_values K (num_bits_of K x0) t0) (join_values K (num_bits_of K x1) t1)
  unfolding bits_of_values join_values
  join_values-AreJoined [] [] t0 t1 e h = tt
  join_values-AreJoined [] (y ∷ ys) t0 t1 e h = absurd e
  join_values-AreJoined (x ∷ xs) [] t0 t1 e h = absurd e
  join_values-AreJoined ((a, m) ∷ xs) ((b, n) ∷ ys) t0 t1 e h =
      let j =
        join_bits-Cong n 0 a b 0 0 (bits_of_values K xs) (bits_of_values K ys) t0 t1
          (omega (arith, e.1)) (rw e.0 at h) in
      rw e.0 (
        j.0 ▸ cong_of_eq modulus (rw (div-one a, div-one b) (omega arith)),
        join_values-AreJoined xs ys _ _ e.2 j.1,
      )

  module _ (S0 S1 : Supply) (supply : SuppliesMatch K S0 S1) where
    -- For stores in step, `b2a_daBit_multi` ends on both servers, with sums modulo `Int_Modulus` that
    -- share the exclusive or of the two servers' values, and with stores that are in step again.
    pub b2a_dabit_multi_lem :
        (x0 x1 : List (ℕ × ℕ)) (s0 s1 : Store)
        → SameBits x0 x1
        → StoresMatch K s0 s1
        → (p0 p1 : List ℕ) × (t0 t1 : Store) × (b2a_dabit_multi K S0 S1 x0 x1 s0 s1
            ≡ some ((p0, p1), (t0, t1)))
          × AreJoined x0 x1 p0 p1
          × StoresMatch K t0 t1
    unfolding b2a_dabit_multi
    b2a_dabit_multi_lem x0 x1 s0 s1 e h =
        let bits0 = bits_of_values K x0 in
        let bits1 = bits_of_values K x1 in
        let len = same-length x0 x1 e in
        let c = check_dabits-StoresMatch K S0 S1 supply (length bits0) s0 s1 h in
        let (p0, p1, t0, t1, run, sums, in_step) =
          b2a_dabit_single_lem K S0 S1 supply bits0 bits1 (check_dabits K S0 (length bits0) s0)
            (check_dabits K S1 (length bits1) s1) len (rw (← len) c.0) in
        (
          join_values K (num_bits_of K x0) p0,
          join_values K (num_bits_of K x1) p1,
          t0,
          t1,
          rw (run, ◌>>=◌),
          join_values-AreJoined x0 x1 p0 p1 e sums,
          in_step,
        )
