-- ===== src/Server/LinReg.antt =====
-- server.cpp: `linreg_op`. `num_x` is at least 0, so `degree` is at least 1. What a client sends as
-- three arrays and a number are functions of the index; only their first entries are read. The
-- values of server 0 for an unknown key are those of new arrays, which are not set: `absent`.
-- `fmpz_get_si` of FLINT is a parameter. The answer is what `SolveLinReg`, in floating point, is
-- given.
pub mod Answers
use prio_plus.Base.{
  ℕ, suc, ◌+◌, ◌*◌, ◌/◌, Bool, true, List, [], ◌∷◌, ◌++◌, ltb, leb, if◌then◌else◌, ◌&&◌, get_or,
  table,
}
use prio_plus.Field.{Field}
use prio_plus.Share.{ClientPacket, client_packet}
use prio_plus.Circuit.{num_mul_gates, check_lin_reg}
use prio_plus.Ot.{Emp}
use prio_plus.Correlated.{◌>>=◌}
use prio_plus.Snips.{CheckerPreComp}
use prio_plus.Server.{
  Shares, Answer, ret_ans, ret_invalid, error_exit, out_of_bounds, collect_shares,
}
use prio_plus.Server.Aggregate.{checked_sums, or_out_of_bounds, max_val_of, max_square_of}

-- `LinRegShare`, with the packet that follows it.
pub record LinRegShare : Type 0 where
  pub x_vals : ℕ → ℕ
  pub y : ℕ
  pub x2_vals : ℕ → ℕ
  pub xy_vals : ℕ → ℕ
  pub packet : ClientPacket

abbrev pub num_quad : (num_x : ℕ) → ℕ
num_quad num_x = num_x * (num_x + 1) / 2

-- The copies of a share's arrays into `shares`.
abbrev pub lin_reg_fields : (num_x : ℕ) → LinRegShare → List ℕ
lin_reg_fields num_x s =
    table num_x 0 s.x_vals
    ++ (s.y ∷ (table (num_quad num_x) 0 s.x2_vals ++ table num_x 0 s.xy_vals))

abbrev pub num_bits_at : (num_x num_bits i : ℕ) → ℕ
num_bits_at num_x num_bits i = num_bits * (if leb (suc num_x) i then 2 else 1)

-- `nbits`.
abbrev pub lin_reg_bits : (num_x num_bits : ℕ) → List ℕ
lin_reg_bits num_x num_bits =
    table (num_x + 1 + (num_quad num_x + num_x)) 0 (num_bits_at num_x num_bits)

-- The loops that set `sizes_valid`: all of `n` values are below a bound.
unfoldable pub all_below : (bound : ℕ) → List ℕ → Bool
all_below bound [] = true
all_below bound (x ∷ xs) = ltb x bound && all_below bound xs

unfoldable pub accept_lin_reg : (num_x num_bits : ℕ) → LinRegShare → Bool
unfolding all_below
accept_lin_reg num_x num_bits s =
    all_below (max_val_of num_bits) (table num_x 0 s.x_vals)
    && all_below (max_square_of num_bits) (table num_x 0 s.xy_vals)
    && ltb s.y (max_val_of num_bits)
    && all_below (max_square_of num_bits) (table (num_quad num_x) 0 s.x2_vals)

-- `x_accum` and `y_accum`.
unfoldable pub lin_reg_accums :
    (get_si : ℕ → ℕ) (num_x : ℕ) → Answer (ℕ × List ℕ) → Answer (List ℕ × List ℕ)
lin_reg_accums get_si num_x (ret_ans (num_valid, b)) =
    let at : ℕ → ℕ = λ j. get_si (get_or b j 0) in
    let degree = suc num_x in
    ret_ans (
      num_valid ∷ table num_x 0 at ++ table (num_quad num_x) degree at,
      at num_x ∷ table num_x (degree + num_quad num_x) at,
    )
lin_reg_accums get_si num_x ret_invalid = ret_invalid
lin_reg_accums get_si num_x error_exit = error_exit
lin_reg_accums get_si num_x out_of_bounds = out_of_bounds

module _ (K : Field) (E : Emp) (get_si : ℕ → ℕ) where
  unfoldable pub linreg_op :
      (order : Shares LinRegShare → Shares LinRegShare) (num_x num_bits : ℕ) (absent : LinRegShare)
      (pre : CheckerPreComp) (draws : ℕ → ℕ) (snip_draws : ℕ → ℕ → ℕ) (total_inputs : ℕ)
      (inputs0 inputs1 : Shares LinRegShare)
      → Answer (List ℕ × List ℕ)
  unfolding checked_sums collect_shares check_lin_reg client_packet num_mul_gates accept_lin_reg
      lin_reg_accums
  linreg_op order num_x num_bits absent pre draws snip_draws total_inputs inputs0 inputs1 =
      lin_reg_accums get_si num_x (
        or_out_of_bounds do
          mock ← client_packet (num_mul_gates (check_lin_reg K (suc num_x)))
          checked_sums K E (lin_reg_fields num_x) (λ s. s.packet)
              (record {
                x_vals = absent.x_vals;
                y = 0;
                x2_vals = absent.x2_vals;
                xy_vals = absent.xy_vals;
                packet = mock;
              })
              (check_lin_reg K (suc num_x)) (lin_reg_bits num_x num_bits) pre draws snip_draws
              total_inputs (collect_shares (accept_lin_reg num_x num_bits) inputs0 [])
              (order (collect_shares (accept_lin_reg num_x num_bits) inputs1 [])))
