-- ===== src/Hash.antt =====
-- hash.h and hash.cpp: `HashStore`, random polynomials as hashes. The draws of `fmpz_randm` from the
-- seed that is shared, and FLINT's shift, are parameters.
pub mod Values
use prio_plus.Base.{
  ℕ, zero, suc, ◌+◌, ◌-◌, ◌*◌, ◌/◌, ◌%◌, ◌^◌, ◌<◌, ◌≡◌, ◌==◌, if◌then◌else◌, u64, sub64, mul64,
}
use prio_plus.Field.{Field}

-- `fmpz_randm` for its n-th draw, and `fmpz_fdiv_q_2exp` on what is at least zero.
pub record HashLib : Type 0 where
  pub fmpz_randm : (n m : ℕ) → ℕ
  pub fmpz_fdiv_q_2exp : ℕ → ℕ → ℕ
  pub fmpz_randm-lt : (n m : ℕ) → 0 < m → fmpz_randm n m < m
  pub fmpz_fdiv_q_2exp_lem : (a n : ℕ) → fmpz_fdiv_q_2exp a n ≡ a / 2 ^ n

pub record HashStore : Type 0 where
  pub d : ℕ
  pub l_bits : ℕ
  pub l : ℕ
  pub w : ℕ
  pub w_bits : ℕ
  pub degree : ℕ
  pub coeff : ℕ → ℕ → ℕ

-- `while(w_tmp >>= 1) w_bits++`. A word is 0 after 64 rounds.
unfoldable pub bits_loop : (fuel w_tmp w_bits : ℕ) → ℕ
bits_loop zero w_tmp w_bits = w_bits
bits_loop (suc fuel) w_tmp w_bits =
    let rest = bits_loop fuel (w_tmp / 2) (suc w_bits) in if w_tmp / 2 == 0 then w_bits else rest

module _ (L : HashLib) where
  -- The constructor; hash `i` takes the draws from `i * (degree + 1)` on.
  unfoldable pub hash_store : (d l_bits w_arg independence : ℕ) → HashStore
  unfolding bits_loop
  hash_store d l_bits w_arg independence =
      let degree = sub64 independence 1 in
      let l = 2 ^ l_bits % u64 in
      record {
        d = d;
        l_bits = l_bits;
        l = l;
        w = w_arg;
        w_bits = bits_loop 64 (sub64 w_arg 1) 1;
        degree = degree;
        coeff = λ i j. L.fmpz_randm (i * (degree + 1) + j) (if j == 0 then w_arg else l);
      }

module _ (K : Field) where
  -- The loop of `eval`, from `j` down to 1.
  unfoldable pub horner_loop : (j : ℕ) (coeffs : ℕ → ℕ) (x l out : ℕ) → ℕ
  horner_loop zero coeffs x l out = out
  horner_loop (suc j) coeffs x l out =
      horner_loop j coeffs x l (K.fmpz_mod (K.fmpz_mul (K.fmpz_add out (coeffs (suc j))) x) l)

module _ (K : Field) (L : HashLib) where
  -- `HashStore::eval`.
  unfoldable pub hash_eval : HashStore → (i x : ℕ) → ℕ
  unfolding horner_loop
  hash_eval h i x =
      let out = horner_loop K h.degree (h.coeff i) x h.l 0 in
      K.fmpz_mod (K.fmpz_add (L.fmpz_fdiv_q_2exp out (sub64 h.l_bits h.w_bits)) (h.coeff i 0)) h.w
