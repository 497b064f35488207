-- ===== src/Client.antt =====
-- client.cpp: what the clients send for the bit sum and for the frequencies, and the answers that
-- they expect. What the random generator returns, the keys of `make_pk` included, is an argument. The
-- sockets have no counterpart: the two lists are what the two servers receive.
pub mod Totals
pub mod BitSum
pub mod Frequencies
pub mod Polynomials
use prio_plus.Base.{
  ℕ, zero, suc, ◌+◌, ◌%◌, ◌^◌, Bool, true, false, List, [], ◌∷◌, xor, bit, ◌&&◌, ◌||◌,
  if◌then◌else◌, not, u64, update,
}
use prio_plus.Server.{Shares, xor64}

-- What the clients draw for one request: a key, the real value, and the first share.
pub record BitRequest : Type 0 where
  pub pk : ℕ
  pub real_val : Bool
  pub share0 : Bool

-- What `bit_sum_helper` computes: `ans`, a 32-bit word, and the shares for the two servers.
pub record BitShares : Type 0 where
  pub ans : ℕ
  pub bitshare0 : Shares Bool
  pub bitshare1 : Shares Bool

unfoldable pub bit_sum_helper : List BitRequest → (ans : ℕ) → BitShares
bit_sum_helper [] ans = record { ans = ans; bitshare0 = []; bitshare1 = [] }
bit_sum_helper (r ∷ rest) ans =
    let out = bit_sum_helper rest ((ans + bit r.real_val) % 2 ^ 32) in
    record {
      ans = out.ans;
      bitshare0 = (r.pk, r.share0) ∷ out.bitshare0;
      bitshare1 = (r.pk, xor r.share0 r.real_val) ∷ out.bitshare1;
    }

-- What the clients draw for one request of `freq_helper`: a key, a word, and the first share.
pub record FreqRequest : Type 0 where
  pub pk : ℕ
  pub word : ℕ
  pub arr : ℕ → Bool

-- What `freq_helper` computes: `counts`, and the shares for the two servers.
pub record FreqShares : Type 0 where
  pub counts : ℕ → ℕ
  pub freqshare0 : Shares (ℕ → Bool)
  pub freqshare1 : Shares (ℕ → Bool)

unfoldable pub freq_helper : (max_int : ℕ) → List FreqRequest → (counts : ℕ → ℕ) → FreqShares
freq_helper max_int [] counts = record { counts = counts; freqshare0 = []; freqshare1 = [] }
freq_helper max_int (r ∷ rest) counts =
    let real_val = r.word % max_int in
    let out = freq_helper max_int rest (update counts real_val ((counts real_val + 1) % u64)) in
    record {
      counts = out.counts;
      freqshare0 = (r.pk, r.arr) ∷ out.freqshare0;
      freqshare1 = (r.pk, update r.arr real_val (not (r.arr real_val))) ∷ out.freqshare1;
    }
