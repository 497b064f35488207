-- ===== src/Share.antt =====
-- share.h and share.cpp: the data that the two servers hold, the splitting of values into
-- shares, and the daBits that one party makes for both. What `fmpz_randm` and the random bit
-- return are arguments. Memory management (`fmpz_init`, `new`, `delete`) has no counterpart.
pub mod PowerOfTwo
pub mod Split
pub mod DaBits
use prio_plus.Base.{
  ℕ, zero, suc, ◌+◌, ◌-◌, ◌*◌, ◌%◌, ◌^◌, Bool, true, List, [], ◌∷◌, Option, none, some, ltb, length,
  if◌then◌else◌, replicate,
}
use prio_plus.Field.{Field, add_mod, mul_mod, sub_mod}

pub record CorShare : Type 0 where
  pub share_d : ℕ
  pub share_e : ℕ

pub record Cor : Type 0 where
  pub d : ℕ
  pub e : ℕ

pub record BeaverTriple : Type 0 where
  pub a : ℕ
  pub b : ℕ
  pub c : ℕ

pub record BeaverTripleShare : Type 0 where
  pub share_a : ℕ
  pub share_b : ℕ
  pub share_c : ℕ

pub record BooleanBeaverTriple : Type 0 where
  pub a : Bool
  pub b : Bool
  pub c : Bool

-- An array is a function of the index; `n_mul` and `n` are the lengths of the two.
pub record ClientPacket : Type 0 where
  pub n_mul : ℕ
  pub n : ℕ
  pub mul_shares : ℕ → ℕ
  pub f0_s : ℕ
  pub g0_s : ℕ
  pub h0_s : ℕ
  pub h_points : ℕ → ℕ
  pub triple_share : BeaverTripleShare

pub record DaBit : Type 0 where
  pub bp : ℕ
  pub b2 : Bool

pub record EdaBit : Type 0 where
  pub r : ℕ
  pub n : ℕ
  pub b : List Bool

-- `while (n + 1 > ans) ans *= 2;` in 32-bit unsigned arithmetic; `none`: out of fuel. A power of
-- two below 2 ^ 32 is reached in 32 rounds, and from 0 the doubling does not get away again.
unfoldable pub next_power_loop : ℕ → ℕ → ℕ → Option ℕ
next_power_loop zero n ans = none
next_power_loop (suc fuel) n ans =
    let rest = next_power_loop fuel n (ans * 2 % 2 ^ 32) in
    if ltb ans ((n + 1) % 2 ^ 32) then rest else some ans

unfoldable pub next_power_of_two : ℕ → Option ℕ
next_power_of_two n = next_power_loop 33 n 1

abbrev zero_triple_share : BeaverTripleShare
zero_triple_share = record { share_a = 0; share_b = 0; share_c = 0 }

-- The constructor of `ClientPacket`: all values are zero.
unfoldable pub client_packet : ℕ → Option ClientPacket
client_packet n_mul = elim (next_power_of_two n_mul) [
  | none ↦ none
  | some n ↦ some (record {
    n_mul = n_mul;
    n = n;
    mul_shares = λ _. 0;
    f0_s = 0;
    g0_s = 0;
    h0_s = 0;
    h_points = λ _. 0;
    triple_share = zero_triple_share;
  })
]

-- `get_int_b`: the bits as a number, lowest first. The loop's state is `pow` and `ans`, 32-bit words;
-- the code's `int` agrees with them for fewer than 32 bits, and overflows for more.
unfoldable pub get_int_b_loop : List Bool → ℕ → ℕ → ℕ
get_int_b_loop [] pow ans = ans
get_int_b_loop (b ∷ bs) pow ans =
    get_int_b_loop bs (pow * 2 % 2 ^ 32) (if b then (ans + pow) % 2 ^ 32 else ans)

unfoldable pub get_int_b : EdaBit → ℕ
get_int_b e = get_int_b_loop e.b 1 0

module _ (K : Field) where
  -- The share `A` is a random draw.
  unfoldable pub split_share : (val draw : ℕ) → ℕ × ℕ
  split_share val draw = (draw, sub_mod K val draw)

  -- The constructor of `Cor`.
  unfoldable pub cor : CorShare → CorShare → Cor
  cor x y = record { d = add_mod K x.share_d y.share_d; e = add_mod K x.share_e y.share_e }

  unfoldable pub new_beaver_triple : (draw_a draw_b : ℕ) → BeaverTriple
  new_beaver_triple draw_a draw_b = record { a = draw_a; b = draw_b; c = mul_mod K draw_a draw_b }

  unfoldable pub beaver_triple_shares :
      BeaverTriple → (draw_a draw_b draw_c : ℕ) → BeaverTripleShare × BeaverTripleShare
  unfolding split_share
  beaver_triple_shares inp draw_a draw_b draw_c =
      let (a0, a1) = split_share inp.a draw_a in
      let (b0, b1) = split_share inp.b draw_b in
      let (c0, c1) = split_share inp.c draw_c in
      (
        record { share_a = a0; share_b = b0; share_c = c0 },
        record { share_a = a1; share_b = b1; share_c = c1 },
      )

  -- `bit` is the random bit, and `draw` what `fmpz_randm` returns below `adjust_mod`, which is
  -- `Int_Modulus - (bit + 1)`.
  unfoldable pub make_local_dabit : (bit draw : ℕ) → DaBit × DaBit
  make_local_dabit bit draw =
      let adjust = K.fmpz_add bit 1 in
      let bp0 = K.fmpz_add draw adjust in
      let bp1 = sub_mod K bit bp0 in
      (record { bp = bp0; b2 = K.fmpz_is_odd bp0 }, record { bp = bp1; b2 = K.fmpz_is_even bp1 })

  -- The loop of `makeLocalEdaBit`, a daBit for each pair of a bit and a draw.
  unfoldable pub make_local_edabit_loop : List (ℕ × ℕ) → (pow r0 r1 : ℕ) → EdaBit × EdaBit
  make_local_edabit_loop [] pow r0 r1 =
      (record { r = r0; n = 0; b = [] }, record { r = r1; n = 0; b = [] })
  make_local_edabit_loop ((bit, draw) ∷ ds) pow r0 r1 =
      let (d0, d1) = make_local_dabit bit draw in
      let (e0, e1) =
        make_local_edabit_loop ds (mul_mod K pow 2) (add_mod K r0 (K.fmpz_mul pow d0.bp))
          (add_mod K r1 (K.fmpz_mul pow d1.bp)) in
      (
        record { r = e0.r; n = suc e0.n; b = d0.b2 ∷ e0.b },
        record { r = e1.r; n = suc e1.n; b = d1.b2 ∷ e1.b },
      )

  unfoldable pub make_local_edabit : List (ℕ × ℕ) → EdaBit × EdaBit
  unfolding make_local_edabit_loop
  make_local_edabit ds = make_local_edabit_loop ds 1 0 0
