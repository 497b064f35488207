-- ===== src/Share/PowerOfTwo.antt =====
-- What `NextPowerOfTwo` returns.
use prio_plus.Base.{
  ℕ, zero, suc, ◌+◌, ◌*◌, ◌^◌, ◌%◌, ◌≤◌, ◌<◌, ◌≡◌, ◌⊎◌, inl, inr, some, arith, Bool-cases, ltb,
  none, refl, false, ap, ltb→lt,
}
use native.Mathlib.Nat.{pow-suc, mod-eq_of_lt}
use native.Mathlib.Decide.{dec_le}
use prio_plus.Share.{next_power_loop, next_power_of_two}

-- The least power of two above `n`.
abbrev pub IsNextPower : ℕ → ℕ → Type 0
IsNextPower n k = (n < 2 ^ k) × ((k ≡ 0) ⊎ (2 ^ k ≤ 2 * n))

pow_step : (k : ℕ) → 2 ^ suc k ≡ 2 ^ k * 2
pow_step k = omega (arith, pow-suc 2 k)

fits : (k n : ℕ) → 2 ^ k ≤ n → n < 2 ^ 31 → 2 ^ k * 2 < 2 ^ 32
fits k n h small = omega arith

k_le : (k : ℕ) {n : ℕ} → k ≤ 31 → 2 ^ k ≤ n → n < 2 ^ 31 → k ≤ 30
k_le k {n} h below small = elim (dec_le k 30) [
  | yes p ↦ p
  | no q ↦ let e : k ≡ 31 = omega arith in absurd (omega (arith, ap (λ (t : ℕ). 2 ^ t) e))
]

above : (n a : ℕ) → n < 2 ^ 31 → ltb a ((n + 1) % 2 ^ 32) ≡ false → n < a
above n a h done = ground arith

loop_lem :
    (f n k : ℕ)
    → f + k ≡ 33
    → k ≤ 31
    → n < 2 ^ 31
    → ((k ≡ 0) ⊎ (2 ^ k ≤ 2 * n))
    → (m : ℕ) × (next_power_loop f n (2 ^ k) ≡ some (2 ^ m)) × IsNextPower n m
unfolding next_power_loop
loop_lem zero n k e h small low = absurd (omega arith)
loop_lem (suc f) n k e h small low = elim (Bool-cases (ltb (2 ^ k) ((n + 1) % 2 ^ 32))) [
  | inl more ↦
      let below : 2 ^ k ≤ n = omega (arith, ltb→lt _ _ more) in
      let top : k ≤ 30 = k_le k h below small in
      rw (more, mod-eq_of_lt (fits k n below small), ← pow_step k)
        (loop_lem f n (suc k) (omega arith) (omega arith) small (inr (omega (arith, pow_step k))))
  | inr done ↦ rw done (k, refl, (above n (2 ^ k) small done, low))
]

-- `NextPowerOfTwo(n)` is the least power of two above `n`, for every `n` below 2 ^ 31.
pub next_power_of_two_lem :
    (n : ℕ) → n < 2 ^ 31 → (k : ℕ) × (next_power_of_two n ≡ some (2 ^ k)) × IsNextPower n k
unfolding next_power_of_two
next_power_of_two_lem n h = loop_lem 33 n 0 refl (omega arith) h (inl refl)

diverges : (f n : ℕ) → 2 ^ 31 ≤ n → n + 1 < 2 ^ 32 → next_power_loop f n 0 ≡ none
unfolding next_power_loop
diverges zero n h k = refl
diverges (suc f) n h k = ground (arith, diverges f n h k)
