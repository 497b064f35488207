-- ===== src/Correlated/Generation.antt =====
-- `generateDaBit`: the two servers make matching halves by a transfer of words.
use prio_plus.Base.{
  ℕ, ◌+◌, ◌-◌, ◌*◌, ◌%◌, ◌<◌, ◌≤◌, ◌≡◌, refl, Bool, true, false, List, [], ◌∷◌, length, xor, bit,
  if◌then◌else◌, arith, Matched, Cong, ◌▸◌, cong_of_eq, cong_sym, cong_refl, add-Cong, mul-Cong,
  mod-Cong, add-Cong_cancel, u64, add64, sub64, mul64,
}
use native.Mathlib.Nat.{mod-lt, add-mul-mod_self_right}
use prio_plus.Share.{DaBit}
use prio_plus.Ot.{Emp, choose}
use prio_plus.Ot.BitSum.{ot_transfer_lem}
use prio_plus.Correlated.{firsts, dabit_words, dabits_of_words, generate_dabit}

module _ (m : ℕ) (positive : 0 < m) (room : 2 * m + 2 ≤ u64) where
  -- The halves hide one bit, modulo `m`.
  abbrev pub HideBit : DaBit → DaBit → Type 0
  HideBit d0 d1 = Cong m (d0.bp + d1.bp) (bit (xor d0.b2 d1.b2))

  -- What a server makes of its bit and its word.
  abbrev made : (b : Bool) (x : ℕ) → ℕ
  made b x = add64 (bit b) (mul64 2 (sub64 m x)) % m

  bit-le : (b : Bool) → bit b ≤ 1
  bit-le true = omega arith
  bit-le false = omega arith

  made-Cong : (b : Bool) (x : ℕ) → x ≤ m → Cong m (made b x + 2 * x) (bit b)
  made-Cong b x le =
      let e : add64 (bit b) (mul64 2 (sub64 m x)) ≡ bit b + 2 * (m - x) = omega (arith, bit-le b) in
      add-Cong (mod-Cong m _ ▸ cong_of_eq m e) (cong_refl m (2 * x))
      ▸ cong_of_eq m (omega arith)
      ▸ record { same = add-mul-mod_self_right (bit b) 2 m }

  -- What the receiver gets: the sender's word, with the sender's bit added for the bit 1.
  abbrev received : (d : ℕ) (b c : Bool) → ℕ
  received d b c = if c then add64 d (bit b) % m else d

  received-le : (d : ℕ) (b c : Bool) → d < m → received d b c ≤ m
  received-le d b true lt = omega (arith, mod-lt (add64 d (bit b)) positive)
  received-le d b false lt = omega arith

  received-Cong : (d : ℕ) (b c : Bool) → d < m → Cong m (received d b c) (d + bit b * bit c)
  received-Cong d b true lt = mod-Cong m (add64 d (bit b)) ▸ cong_of_eq m (omega (arith, bit-le b))
  received-Cong d b false lt = cong_of_eq m (omega arith)

  xor_sum : (b c : Bool) → bit (xor b c) + 2 * (bit b * bit c) ≡ bit b + bit c
  unfolding xor
  xor_sum true true = refl
  xor_sum true false = refl
  xor_sum false true = refl
  xor_sum false false = refl

  word_step :
      (d : ℕ) (b c : Bool)
      → d < m
      → Cong m (made b (sub64 m d) + made c (received d b c)) (bit (xor b c))
  word_step d b c lt =
      let x : sub64 m d ≡ m - d = omega arith in
      let r = received d b c in
      let p = bit b * bit c in
      let h0 = made-Cong b (m - d) (omega arith) in
      let h1 = made-Cong c r (received-le d b c lt) in
      let two_r = mul-Cong (cong_refl m 2) (received-Cong d b c lt) in
      let total : Cong m (made b (m - d) + made c r + 2 * p + 2 * m)
          (made b (m - d) + made c r + 2 * p) =
        record { same = add-mul-mod_self_right (made b (m - d) + made c r + 2 * p) 2 m } in
      rw x (
        add-Cong_cancel (2 * p) positive (
          cong_sym total
          ▸ cong_of_eq m (omega arith)
          ▸ add-Cong (cong_refl m (made b (m - d) + made c r + 2 * (m - d))) (cong_sym two_r)
          ▸ cong_of_eq m (omega arith)
          ▸ add-Cong h0 h1
          ▸ cong_of_eq m (omega (arith, xor_sum b c))))

  words-Matched :
      (rand0 : List (Bool × ℕ)) (rand1 : List Bool)
      → length rand0 ≡ length rand1
      → (let w = dabit_words m rand0 in
          Matched HideBit
            (dabits_of_words m (firsts rand0) w.1)
            (dabits_of_words m rand1 (choose w.0.0 w.0.1 rand1)))
  unfolding dabit_words dabits_of_words
  words-Matched [] [] h = tt
  words-Matched [] (c ∷ cs) h = absurd (omega arith)
  words-Matched (r ∷ rs) [] h = absurd (omega arith)
  words-Matched ((b, draw) ∷ rs) (c ∷ cs) h =
      (word_step (draw % m) b c (mod-lt draw positive), words-Matched rs cs (omega arith))

  -- For a modulus `m` with `2 * m + 2` at most 2 ^ 64, and as many random bits on both servers, the
  -- halves that `generateDaBit` makes on the two servers match, place by place: modulo `m` they add up
  -- to the exclusive or of the two servers' bits.
  pub generate_dabit-Matched :
      (E : Emp) (rand0 : List (Bool × ℕ)) (rand1 : List Bool)
      → length rand0 ≡ length rand1
      → (let halves = generate_dabit E m rand0 rand1 in Matched HideBit halves.0 halves.1)
  unfolding generate_dabit
  generate_dabit-Matched E rand0 rand1 h =
      let w = dabit_words m rand0 in
      rw (ot_transfer_lem E w.0.0 w.0.1 rand1) (words-Matched rand0 rand1 h)
