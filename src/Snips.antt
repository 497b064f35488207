-- ===== src/Snips.antt =====
-- server.h (`Checker`, `AddToZero`), poly/poly_once.c (`precomp_x_eval`) and `validate_snips` of
-- server.cpp: the two servers' check of a client's proof that its values meet a circuit. Arrays are
-- functions of the index. The coefficients that `precomp_x_init` computes for the point `x` are a
-- list; what `fmpz_randm` draws from the synchronised `snips_seed` is the same on both servers.
pub mod Polynomials
pub mod Fill
pub mod Places
pub mod Triple
pub mod Validation
use prio_plus.Base.{
  ℕ, zero, suc, ◌+◌, ◌*◌, Bool, true, false, List, [], ◌∷◌, Option, none, some, map, ◌==◌,
  if◌then◌else◌, get_or, update,
}
use prio_plus.Field.{Field, add_mod, mul_mod, sub_mod}
use prio_plus.Share.{ClientPacket, BeaverTripleShare, CorShare, Cor, cor, next_power_of_two}
use prio_plus.Circuit.{
  Circuit, Gate, input, add, add_const, mul, mul_const, Wires, num_mul_gates, import_wires,
}

-- `precomp_x_t`: `short_x` is `none` for -1.
pub record PrecompX : Type 0 where
  pub short_x : Option ℕ
  pub coeffs : List ℕ

-- `CheckerPreComp`, after `setCheckerPrecomp`.
pub record CheckerPreComp : Type 0 where
  pub x : ℕ
  pub x_n : PrecompX
  pub x_2n : PrecompX

-- The three arrays of points of a `Checker`.
pub record Points : Type 0 where
  pub points_f : ℕ → ℕ
  pub points_g : ℕ → ℕ
  pub points_h : ℕ → ℕ

-- `evalF`, `evalG` and `evalH`.
pub record Evals : Type 0 where
  pub eval_f : ℕ
  pub eval_g : ℕ
  pub eval_h : ℕ

-- The fields of a `Checker` that are read after its constructor.
pub record Checker : Type 0 where
  pub server_num : ℕ
  pub req : ClientPacket
  pub evals : Evals
  pub wires : Wires

-- `ParentL` and `ParentR` of the gate at a place.
abbrev pub parent_l : Gate → ℕ
parent_l input = 0
parent_l (add l r) = l
parent_l (add_const l c) = l
parent_l (mul l r) = l
parent_l (mul_const l c) = l

abbrev pub parent_r : Gate → ℕ
parent_r (add l r) = r
parent_r (mul l r) = r
parent_r _ = 0

-- The first loop of `evalPoly`, from multiplication gate `i` on.
unfoldable pub points_loop : List ℕ → (gates : List Gate) (w : Wires) (i : ℕ) → Points → Points
points_loop [] gates w i p = p
points_loop (g ∷ gs) gates w i p = points_loop gs gates w (suc i) (record {
  points_f = update p.points_f (i + 1) (w (parent_l (get_or gates g input)));
  points_g = update p.points_g (i + 1) (w (parent_r (get_or gates g input)));
  points_h = update p.points_h (2 * (i + 1)) (w g);
})

-- Its second loop, over `j`.
unfoldable pub h_points_loop : (rounds j : ℕ) (h_points : ℕ → ℕ) → (ℕ → ℕ) → ℕ → ℕ
h_points_loop zero j h_points h = h
h_points_loop (suc rounds) j h_points h =
    h_points_loop rounds (suc j) h_points (update h (2 * j + 1) (h_points j))

abbrev pub constant_points : ClientPacket → Points
constant_points req = record {
  points_f = update (λ i. 0) 0 req.f0_s;
  points_g = update (λ i. 0) 0 req.g0_s;
  points_h = update (λ i. 0) 0 req.h0_s;
}

module _ (K : Field) where
  -- The loop of `precomp_x_eval`.
  unfoldable pub eval_points : List ℕ → (i : ℕ) (y_values : ℕ → ℕ) (out : ℕ) → ℕ
  eval_points [] i y_values out = out
  eval_points (c ∷ cs) i y_values out =
      eval_points cs (suc i) y_values (add_mod K out (mul_mod K (y_values i) c))

  unfoldable pub precomp_x_eval : PrecompX → (y_values : ℕ → ℕ) → ℕ
  unfolding eval_points
  precomp_x_eval pre y_values = elim pre.short_x [
    | none ↦ eval_points pre.coeffs 0 y_values 0
    | some i ↦ y_values i
  ]

  -- `evalPoly`; `n_roots` is `N`.
  unfoldable pub eval_poly : Circuit → (n_roots : ℕ) → CheckerPreComp → ClientPacket → Wires → Evals
  unfolding points_loop h_points_loop precomp_x_eval
  eval_poly ckt n_roots pre req w =
      let p = points_loop ckt.mul_gates ckt.gates w 0 (constant_points req) in
      let h = h_points_loop n_roots 0 req.h_points p.points_h in
      record {
        eval_f = precomp_x_eval pre.x_n p.points_f;
        eval_g = mul_mod K (precomp_x_eval pre.x_n p.points_g) pre.x;
        eval_h = mul_mod K (precomp_x_eval pre.x_2n h) pre.x;
      }

  -- The constructor.
  unfoldable pub checker :
      Circuit
      → (n_roots server_num : ℕ) → ClientPacket
      → CheckerPreComp
      → (input_shares : ℕ → ℕ) → Checker
  unfolding eval_poly import_wires
  checker ckt n_roots server_num req pre input_shares =
      let w = import_wires K ckt req server_num input_shares in
      record {
        server_num = server_num;
        req = req;
        evals = eval_poly ckt n_roots pre req w;
        wires = w;
      }

  unfoldable pub cor_share_fn : Checker → CorShare
  cor_share_fn c = record {
    share_d = sub_mod K c.evals.eval_f c.req.triple_share.share_a;
    share_e = sub_mod K c.evals.eval_g c.req.triple_share.share_b;
  }

  -- `mulCheck` of `OutShare`.
  unfoldable pub mul_check : (server_num : ℕ) → Cor → BeaverTripleShare → (eval_h : ℕ) → ℕ
  mul_check server_num c t eval_h =
      let start = if server_num == 0 then mul_mod K c.d c.e else 0 in
      let with_d = add_mod K start (mul_mod K c.d t.share_b) in
      let with_e = add_mod K with_d (mul_mod K c.e t.share_a) in
      sub_mod K (add_mod K with_e t.share_c) eval_h

  -- The loop of `randSum`, with the draws of `snips_seed`; `same_runtime` is false.
  unfoldable pub rand_sum_loop : List ℕ → (i : ℕ) (draws : ℕ → ℕ) (out : ℕ) → ℕ
  rand_sum_loop [] i draws out = out
  rand_sum_loop (a ∷ arr) i draws out =
      rand_sum_loop arr (suc i) draws (K.fmpz_add out (mul_mod K (draws i) a))

  unfoldable pub rand_sum : List ℕ → (draws : ℕ → ℕ) → ℕ
  unfolding rand_sum_loop
  rand_sum arr draws = K.fmpz_mod (rand_sum_loop arr 0 draws 0) K.modulus

  unfoldable pub out_share : Checker → (result_zero : List ℕ) → Cor → (draws : ℕ → ℕ) → ℕ
  unfolding mul_check rand_sum
  out_share c result_zero cor_in draws =
      rand_sum
        (mul_check c.server_num cor_in c.req.triple_share c.evals.eval_h ∷ map c.wires result_zero)
        draws

  unfoldable pub add_to_zero : ℕ → ℕ → Bool
  add_to_zero x y = add_mod K x y == 0

  -- The two servers' validation of one client's packets and shares.
  unfoldable pub validate_snip :
      Circuit
      → (n_roots : ℕ) → CheckerPreComp
      → (p0 p1 : ClientPacket) (shares0 shares1 : ℕ → ℕ) (draws : ℕ → ℕ) → Bool
  unfolding checker cor_share_fn out_share add_to_zero
  validate_snip ckt n_roots pre p0 p1 shares0 shares1 draws =
      let c0 = checker ckt n_roots 0 p0 pre shares0 in
      let c1 = checker ckt n_roots 1 p1 pre shares1 in
      let c = cor K (cor_share_fn c0) (cor_share_fn c1) in
      add_to_zero (out_share c0 ckt.result_zero c draws) (out_share c1 ckt.result_zero c draws)

  -- `validate_snips`, for a batch of packets and shares that are checked against one circuit: `ckt` is
  -- each entry of `circuit`. `none`: without an entry, the read of `circuit[0]` is out of bounds.
  unfoldable pub validate_snips :
      Circuit
      → CheckerPreComp
      → List (ClientPacket × ClientPacket × (ℕ → ℕ) × (ℕ → ℕ) × (ℕ → ℕ))
      → Option (List Bool)
  unfolding validate_snip
  validate_snips ckt pre [] = none
  validate_snips ckt pre (first ∷ rest) = elim (next_power_of_two (num_mul_gates ckt)) [
    | none ↦ none
    | some n_roots ↦ some (
        map (λ (p0, p1, s0, s1, draws). validate_snip ckt n_roots pre p0 p1 s0 s1 draws)
          (first ∷ rest))
  ]
