-- ===== src/Share/DaBits.antt =====
-- A daBit that one party makes for both hides one bit in two ways: as a sum modulo `Int_Modulus`
-- and as an exclusive or.
use prio_plus.Base.{
  ◌∙◌, ℕ, ◌+◌, ◌-◌, ◌*◌, ◌%◌, ◌<◌, ◌≡◌, refl, Bool, List, [], ◌∷◌, xor, bit, arith, Cong, ◌▸◌,
  cong_of_eq, cong_refl, add-Cong, mul-Cong, ap,
}
use prio_plus.Field.{
  Field, sub_mod-Cong, sub_mod-lt, sub_mod, mul_mod-Cong, add_mod-Cong, add_mod, mul_mod,
}
use prio_plus.Share.{DaBit, EdaBit, make_local_dabit, make_local_edabit, make_local_edabit_loop}

-- Of two numbers that differ by a bit from an odd number in all, one is odd as the bit says.
parity :
    (o e b x y p : ℕ)
    → x + y ≡ b + p
    → p % 2 ≡ 1
    → b < 2
    → o ≡ x % 2
    → e ≡ 1 - y % 2
    → (o + e) % 2 ≡ b
parity o e b x y p = omega arith

pub bit-xor : (a b : Bool) → bit (xor a b) ≡ (bit a + bit b) % 2
unfolding xor
bit-xor a b = ground arith

-- A sum below twice the modulus that has the bit's residue and is above the bit is the bit and
-- the modulus.
wraps_once : (p b s : ℕ) → b < s → s < p + p → b < p → s % p ≡ b % p → s ≡ b + p
wraps_once p b s = grind arith

module _ (K : Field) where
  open K use {modulus}

  -- What the two halves of a daBit for `b` satisfy.
  pub record IsDaBit (b : ℕ) (d : DaBit × DaBit) : Type 0 where
    pub arithmetic : Cong modulus (d.0.bp + d.1.bp) b
    pub boolean : bit (xor d.0.b2 d.1.b2) ≡ b

  dabit_of_share :
      (b r : ℕ)
      → modulus % 2 ≡ 1
      → b < 2
      → b < r
      → r < modulus
      → IsDaBit b (
        record { bp = r; b2 = K.fmpz_is_odd r },
        record { bp = sub_mod K b r; b2 = K.fmpz_is_even (sub_mod K b r) },
      )
  dabit_of_share b r odd small low high =
      let s = sub_mod K b r in
      let c : Cong modulus (r + s) b = cong_of_eq modulus (omega arith) ▸ sub_mod-Cong K b r in
      let total : r + s ≡ b + modulus =
        wraps_once modulus b (r + s) (omega arith) (omega (arith, sub_mod-lt K b r)) (omega arith)
          c.same in
      record {
        arithmetic = c;
        boolean =
            bit-xor (K.fmpz_is_odd r) (K.fmpz_is_even s)
            ∙ parity _ _ b r s modulus total odd small (K.fmpz_is_odd_lem r) (K.fmpz_is_even_lem s);
      }

  -- What `makeLocalDaBit` returns is a daBit for its random bit, for an odd modulus and any draw
  -- in the range that it asks `fmpz_randm` for.
  pub make_local_dabit-IsDaBit :
      (b draw : ℕ)
      → modulus % 2 ≡ 1
      → b < 2
      → draw + (b + 1) < modulus
      → IsDaBit b (make_local_dabit K b draw)
  unfolding make_local_dabit
  make_local_dabit-IsDaBit b draw odd small range =
      let e : K.fmpz_add draw (K.fmpz_add b 1) ≡ draw + (b + 1) =
        K.fmpz_add_lem draw _ ∙ ap (λ t. draw + t) (K.fmpz_add_lem b 1) in
      dabit_of_share b _ odd small (omega arith) (omega arith)

-- The bits of two lists, joined by exclusive or, as numbers.
abbrev pub xor_bits : List Bool → List Bool → List ℕ
xor_bits [] bs = []
xor_bits (a ∷ as') [] = []
xor_bits (a ∷ as') (b ∷ bs) = bit (xor a b) ∷ xor_bits as' bs

-- The number with these digits, lowest first.
abbrev pub bits_value : List ℕ → ℕ
bits_value [] = 0
bits_value (b ∷ bs) = b + 2 * bits_value bs

abbrev pub drawn_bits : List (ℕ × ℕ) → List ℕ
drawn_bits [] = []
drawn_bits ((b, draw) ∷ ds) = b ∷ drawn_bits ds

module _ (K : Field) where
  open K use {modulus}

  -- Bits, and draws in the range that `makeLocalDaBit` asks for.
  abbrev pub InRange : List (ℕ × ℕ) → Type 0
  InRange [] = Unit {0}
  InRange ((b, draw) ∷ ds) = (b < 2) × (draw + (b + 1) < modulus) × InRange ds

  pub record IsEdaBit (bs : List ℕ) (start : ℕ) (pow : ℕ) (e : EdaBit × EdaBit) : Type 0 where
    pub arithmetic : Cong modulus (e.0.r + e.1.r) (start + pow * bits_value bs)
    pub boolean : xor_bits e.0.b e.1.b ≡ bs

  edabit_step :
      (pow r0 r1 bp0 bp1 b v t : ℕ)
      → Cong modulus (bp0 + bp1) b
      → Cong modulus t (
          add_mod K r0 (K.fmpz_mul pow bp0)
          + add_mod K r1 (K.fmpz_mul pow bp1)
          + mul_mod K pow 2 * v)
      → Cong modulus t (r0 + r1 + pow * (b + 2 * v))
  edabit_step pow r0 r1 bp0 bp1 b v t h ih =
      ih
      ▸ add-Cong
          (add-Cong (add_mod-Cong K r0 (K.fmpz_mul pow bp0))
            (add_mod-Cong K r1 (K.fmpz_mul pow bp1)))
          (mul-Cong (mul_mod-Cong K pow 2) (cong_refl modulus v))
      ▸ cong_of_eq modulus (omega (arith, K.fmpz_mul_lem pow bp0, K.fmpz_mul_lem pow bp1))
      ▸ add-Cong (mul-Cong (cong_refl modulus pow) h) (cong_refl modulus (r0 + r1 + pow * 2 * v))
      ▸ cong_of_eq modulus (omega arith)

  loop-IsEdaBit :
      (ds : List (ℕ × ℕ)) (pow r0 r1 : ℕ)
      → modulus % 2 ≡ 1
      → InRange ds
      → IsEdaBit (drawn_bits ds) (r0 + r1) pow (make_local_edabit_loop K ds pow r0 r1)
  unfolding make_local_edabit_loop
  loop-IsEdaBit [] pow r0 r1 odd range = record {
    arithmetic = cong_of_eq modulus (omega arith);
    boolean = refl;
  }
  loop-IsEdaBit ((b, draw) ∷ ds) pow r0 r1 odd range =
      let h = make_local_dabit-IsDaBit K b draw odd range.0 range.1 in
      let d = make_local_dabit K b draw in
      let ih =
        loop-IsEdaBit ds (mul_mod K pow 2) (add_mod K r0 (K.fmpz_mul pow d.0.bp))
          (add_mod K r1 (K.fmpz_mul pow d.1.bp)) odd range.2 in
      record {
        arithmetic =
            edabit_step pow r0 r1 d.0.bp d.1.bp b (bits_value (drawn_bits ds)) _ h.arithmetic
              ih.arithmetic;
        boolean = ground (arith, h.boolean, ih.boolean);
      }

  -- What `makeLocalEdaBit` returns shares the number whose bits were drawn, and shares the bits.
  pub make_local_edabit-IsEdaBit :
      (ds : List (ℕ × ℕ))
      → modulus % 2 ≡ 1
      → InRange ds
      → IsEdaBit (drawn_bits ds) 0 1 (make_local_edabit K ds)
  unfolding make_local_edabit
  make_local_edabit-IsEdaBit ds odd range = loop-IsEdaBit ds 1 0 0 odd range
