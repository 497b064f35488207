-- ===== src/Client/Polynomials.antt =====
-- `share_polynomials` of client.h: the packets that a client sends with its values. The wires are
-- those that `Eval` left in the gates, and what the random generator returns is an argument.
pub mod Extended
pub mod Values
use prio_plus.Base.{
  ℕ, zero, suc, ◌+◌, ◌*◌, false, true, List, [], ◌∷◌, Option, some, get_or, ltb, if◌then◌else◌,
  update,
}
use prio_plus.Field.{Field, mul_mod}
use prio_plus.Share.{
  ClientPacket, next_power_of_two, split_share, new_beaver_triple, beaver_triple_shares,
}
use prio_plus.Circuit.{Circuit, Gate, input, Wires, num_mul_gates, get_mul_shares}
use prio_plus.Snips.{parent_l, parent_r}
use prio_plus.Correlated.{◌>>=◌}
use prio_plus.Transform.{fft_interpolate}
use prio_plus.Transform.Roots.{PowLib, RootTables, init_roots}

-- The random values: `u_0` and `v_0`, those of the triple, and the first shares.
pub record PacketDraws : Type 0 where
  pub points_f0 : ℕ
  pub points_g0 : ℕ
  pub h_shares : ℕ → ℕ
  pub f0_share : ℕ
  pub g0_share : ℕ
  pub h0_share : ℕ
  pub mul_shares : ℕ → ℕ
  pub triple_a : ℕ
  pub triple_b : ℕ
  pub share_a : ℕ
  pub share_b : ℕ
  pub share_c : ℕ

-- `pointsF` or `pointsG`, from multiplication gate `i` on, for the left or the right parents.
unfoldable pub gate_points :
    (parent : Gate → ℕ) (mulgates : List ℕ) (gates : List Gate)
    → Wires
    → (i : ℕ) (points : ℕ → ℕ) → ℕ
    → ℕ
gate_points parent [] gates w i points = points
gate_points parent (g ∷ gs) gates w i points =
    gate_points parent gs gates w (suc i)
      (update points (i + 1) (w (parent (get_or gates g input))))

-- `copy_fmpz_array` into an array of zeros.
abbrev pub padded : (n : ℕ) (poly : ℕ → ℕ) → ℕ → ℕ
padded n poly j = if ltb j n then poly j else 0

module _ (K : Field) where
  -- The loop that shares `h_points`, from `j` on.
  unfoldable pub share_h_loop :
      (rounds j : ℕ) (evals_f evals_g draws : ℕ → ℕ) → (ℕ → ℕ) × (ℕ → ℕ) → (ℕ → ℕ) × (ℕ → ℕ)
  unfolding split_share
  share_h_loop zero j evals_f evals_g draws hs = hs
  share_h_loop (suc rounds) j evals_f evals_g draws (h0, h1) =
      let (a, b) =
        split_share K (mul_mod K (evals_f (2 * j + 1)) (evals_g (2 * j + 1))) (draws j) in
      share_h_loop rounds (suc j) evals_f evals_g draws (update h0 j a, update h1 j b)

  -- `init_roots` unless the tables are there: an empty list stands for `nullptr`.
  unfoldable pub tables_for : PowLib → (gen two_order n : ℕ) → RootTables → RootTables
  tables_for L gen two_order n old = elim old.roots [
    | [] ↦ init_roots K L gen two_order n old
    | _ ∷ _ ↦ old
  ]

  -- The values of the polynomial through `points` at the roots in `roots2`.
  unfoldable pub eval_at_roots : PowLib → (n : ℕ) → RootTables → (points : ℕ → ℕ) → Option (ℕ → ℕ)
  unfolding fft_interpolate
  eval_at_roots L n t points = do
    poly ← fft_interpolate K L.fmpz_invmod n (λ j. get_or t.invroots j 0) points true
    fft_interpolate K L.fmpz_invmod (2 * n) (λ j. get_or t.roots2 j 0) (padded n poly) false

  -- What is done once the two polynomials are evaluated; `n` is `N`.
  unfoldable pub packets_of :
      Circuit
      → Wires
      → PacketDraws
      → (n : ℕ) (evals_f evals_g : ℕ → ℕ) → ClientPacket × ClientPacket
      → ClientPacket × ClientPacket
  unfolding share_h_loop split_share get_mul_shares new_beaver_triple beaver_triple_shares
  packets_of c w d n evals_f evals_g (p0, p1) =
      let h0 = mul_mod K d.points_f0 d.points_g0 in
      let hs = share_h_loop n 0 evals_f evals_g d.h_shares (p0.h_points, p1.h_points) in
      let f0s = split_share K d.points_f0 d.f0_share in
      let g0s = split_share K d.points_g0 d.g0_share in
      let h0s = split_share K h0 d.h0_share in
      let ms = get_mul_shares K c d.mul_shares w (p0.mul_shares, p1.mul_shares) in
      let ts =
        beaver_triple_shares K (new_beaver_triple K d.triple_a d.triple_b) d.share_a d.share_b
          d.share_c in
      (
        record p0 {
          mul_shares = ms.0;
          f0_s = f0s.0;
          g0_s = g0s.0;
          h0_s = h0s.0;
          h_points = hs.0;
          triple_share = ts.0;
        },
        record p1 {
          mul_shares = ms.1;
          f0_s = f0s.1;
          g0_s = g0s.1;
          h0_s = h0s.1;
          h_points = hs.1;
          triple_share = ts.1;
        },
      )

  unfoldable pub share_polynomials :
      PowLib
      → (gen two_order : ℕ) → RootTables
      → Circuit
      → Wires
      → PacketDraws
      → ClientPacket × ClientPacket
      → Option (ClientPacket × ClientPacket)
  unfolding gate_points tables_for eval_at_roots packets_of num_mul_gates next_power_of_two
  share_polynomials L gen two_order old c w d p = do
    n ← next_power_of_two (num_mul_gates c)
    let t = tables_for L gen two_order n old
    let points_f = gate_points parent_l c.mul_gates c.gates w 0 (update (λ j. 0) 0 d.points_f0)
    let points_g = gate_points parent_r c.mul_gates c.gates w 0 (update (λ j. 0) 0 d.points_g0)
    evals_f ← eval_at_roots L n t points_f
    evals_g ← eval_at_roots L n t points_g
    some (packets_of c w d n evals_f evals_g p)
