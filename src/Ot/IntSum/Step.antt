-- ===== src/Ot/IntSum/Step.antt =====
-- One bit of the conversion: what the two sides add for it, where no 64-bit sum wraps.
use prio_plus.Base.{
  ℕ, zero, suc, ◌+◌, ◌-◌, ◌*◌, ◌%◌, ◌^◌, ◌<◌, ◌≤◌, ◌≡◌, ◌⊎◌, inl, inr, ap, Bool, true, false,
  if◌then◌else◌, arith, ◌==◌, Cong, ◌▸◌, cong_of_eq, cong_refl, add-Cong, mod-Cong, add_mul-Cong,
  u64, add64, sub64, mul64,
}
use native.Mathlib.Nat.{pow-suc, zero-add, mod-lt, mod-eq_of_lt}
use native.Mathlib.Decide.{ℕ_discrete}
use prio_plus.Ot.{max_word, reduce}

-- The modulus that `mod` stands for.
abbrev pub word_modulus : ℕ → ℕ
word_modulus m = if m == 0 then u64 else m

-- Values of `n` bits fit: at the default modulus they are words, and at another the sum of two
-- residues and a power does not wrap.
abbrev pub Fits : ℕ → ℕ → Type 0
Fits m n = ((m ≡ 0) × (n ≤ 64)) ⊎ ((0 < m) × (2 ^ n ≤ m) × (2 * m + 2 ^ n ≤ u64))

pub pow_pos : (k : ℕ) → 0 < 2 ^ k
pow_pos zero = omega arith
pow_pos (suc k) = omega (arith, pow-suc 2 k, pow_pos k)

pub pow_mono : (k n : ℕ) → 2 ^ k ≤ 2 ^ (n + k)
pow_mono k zero = omega (arith, ap (λ (t : ℕ). 2 ^ t) (zero-add k))
pow_mono k (suc n) =
    let e : suc n + k ≡ suc (n + k) = omega arith in
    omega (arith, ap (λ (t : ℕ). 2 ^ t) e, pow-suc 2 (n + k), pow_mono k n)

-- The words of one transfer, and the sum that the sender keeps, for the random word `d`.
abbrev pub word0 : (m d : ℕ) → ℕ
word0 m d = reduce m d

abbrev pub word1 : (m k share d : ℕ) → ℕ
word1 m k share d =
    let pow = 2 ^ k % u64 in
    reduce m (add64 (reduce m d) (if share == 0 then pow else add64 (sub64 (max_word m) pow) 1))

abbrev pub kept : (m k share d ret : ℕ) → ℕ
kept m k share d ret =
    reduce m
      (add64 ret (add64 (mul64 share (2 ^ k % u64)) (add64 (sub64 (max_word m) (reduce m d)) 1)))

-- Over the words themselves everything wraps together.
step_default :
    (p d ret recv : ℕ) (share : ℕ) (t : Bool)
    → share < 2
    → p < u64
    → d < u64
    → (let b1 = add64 d (if share == 0 then p else add64 (sub64 (u64 - 1) p) 1) in
        let r = if t then b1 else d in
        Cong u64
          (add64 ret (add64 (mul64 share p) (add64 (sub64 (u64 - 1) d) 1)) + add64 recv r)
          (ret + recv + p * ((share + (if t then 1 else 0)) % 2)))
step_default p d ret recv zero true h hp hd = record { same = omega arith }
step_default p d ret recv zero false h hp hd = record { same = omega arith }
step_default p d ret recv (suc zero) true h hp hd = record { same = omega arith }
step_default p d ret recv (suc zero) false h hp hd = record { same = omega arith }
step_default p d ret recv (suc (suc s)) t h hp hd = absurd (omega arith)

pos_of : {x m : ℕ} → x < m → 0 < m
pos_of h = omega arith

-- At a modulus that leaves room no sum wraps, and only the residue is taken.
module _ (m p x ret recv : ℕ) (low : x < m) (small : p ≤ m) (room : 2 * m + p ≤ u64) where
  combine :
      (a r r' k target : ℕ)
      → a < u64
      → recv + r < u64
      → Cong m r r'
      → a + (recv + r') ≡ target + k * m
      → Cong m (a % u64 % m + add64 recv r % m) target
  combine a r r' k target fits_a fits_r h e =
      add-Cong (cong_of_eq m (ap (λ t. t % m) (mod-eq_of_lt fits_a)) ▸ mod-Cong m a) (
        cong_of_eq m (ap (λ t. t % m) (mod-eq_of_lt fits_r))
        ▸ mod-Cong m (recv + r)
        ▸ add-Cong (cong_refl m recv) h)
      ▸ cong_of_eq m e
      ▸ add_mul-Cong m target k

  step_room :
      (share : ℕ) (t : Bool)
      → share < 2
      → ret < m
      → recv < m
      → (let b1 = add64 x (if share == 0 then p else add64 (sub64 (m - 1) p) 1) % m in
          let r = if t then b1 else x in
          Cong m
            (add64 ret (add64 (mul64 share p) (add64 (sub64 (m - 1) x) 1)) % m + add64 recv r % m)
            (ret + recv + p * ((share + (if t then 1 else 0)) % 2)))
  step_room zero true h hr hv =
      combine (ret + add64 (mul64 0 p) (add64 (sub64 (m - 1) x) 1)) (add64 x p % m) (x + p) 1 _
        (omega arith) (omega (arith, mod-lt (add64 x p) (pos_of low)))
        (mod-Cong m (add64 x p) ▸ cong_of_eq m (omega arith)) (omega arith)
  step_room zero false h hr hv =
      combine (ret + add64 (mul64 0 p) (add64 (sub64 (m - 1) x) 1)) x x 1 _ (omega arith)
        (omega arith) (cong_refl m x) (omega arith)
  step_room (suc zero) true h hr hv =
      let q = add64 (sub64 (m - 1) p) 1 in
      combine (ret + add64 (mul64 1 p) (add64 (sub64 (m - 1) x) 1)) (add64 x q % m) (x + (m - p)) 2
        _ (omega arith) (omega (arith, mod-lt (add64 x q) (pos_of low)))
        (mod-Cong m (add64 x q) ▸ cong_of_eq m (omega arith)) (omega arith)
  step_room (suc zero) false h hr hv =
      combine (ret + add64 (mul64 1 p) (add64 (sub64 (m - 1) x) 1)) x x 1 _ (omega arith)
        (omega arith) (cong_refl m x) (omega arith)
  step_room (suc (suc s)) t h hr hv = absurd (omega arith)

abbrev PowFits : ℕ → ℕ → Type 0
PowFits m p = ((m ≡ 0) × (p < u64)) ⊎ ((0 < m) × (p ≤ m) × (2 * m + p ≤ u64))

pub PowFits-of : (m n k : ℕ) → Fits m n → k < n → PowFits m (2 ^ k)
PowFits-of m n k (inl (e, h)) lt =
    let s : 64 - suc k + suc k ≡ 64 = omega arith in
    inl (
      e,
      omega (arith, pow_mono (suc k) (64 - suc k), ap (λ (t : ℕ). 2 ^ t) s, pow-suc 2 k, pow_pos k),
    )
PowFits-of m n k (inr (pos, h, room)) lt =
    let s : n - k + k ≡ n = omega arith in
    let le : 2 ^ k ≤ 2 ^ n = omega (arith, pow_mono k (n - k), ap (λ (t : ℕ). 2 ^ t) s) in
    inr (pos, omega arith, omega arith)

pow_word : (m p : ℕ) → PowFits m p → p % u64 ≡ p
pow_word m p (inl (e, h)) = mod-eq_of_lt h
pow_word m p (inr (pos, h, room)) = omega arith

is_default : (m : ℕ) → m ≡ 0 → (m == 0) ≡ true
is_default m e = ground arith

not_default : (m : ℕ) → 0 < m → (m == 0) ≡ false
not_default m pos = ground arith

step_of_pow :
    (m p share d ret recv : ℕ) (t : Bool)
    → PowFits m p
    → share < 2
    → d < u64
    → ret < word_modulus m
    → recv < word_modulus m
    → (let b0 = reduce m d in
        let b1 = reduce m (add64 b0 (if share == 0 then p else add64 (sub64 (max_word m) p) 1)) in
        Cong
          (word_modulus m)
          (reduce m (add64 ret (add64 (mul64 share p) (add64 (sub64 (max_word m) b0) 1)))
            + reduce m (add64 recv (if t then b1 else b0)))
          (ret + recv + p * ((share + (if t then 1 else 0)) % 2)))
step_of_pow m p share d ret recv t (inl (e, h)) hs hd hr hv =
    rw (is_default m e) (step_default p d ret recv share t hs h hd)
step_of_pow m p share d ret recv t (inr (pos, h, room)) hs hd hr hv =
    let e = not_default m pos in
    rw e (step_room m p (d % m) ret recv (mod-lt d pos) h room share t hs (rw e at hr) (rw e at hv))

-- For each bit: what the sender keeps and what the receiver gets add up to the power of two when
-- the two bits differ, and to nothing otherwise.
pub step_Cong :
    (m k share d ret recv : ℕ) (t : Bool)
    → PowFits m (2 ^ k)
    → share < 2
    → d < u64
    → ret < word_modulus m
    → recv < word_modulus m
    → Cong
        (word_modulus m)
        (kept m k share d ret + reduce m (add64 recv (if t then word1 m k share d else word0 m d)))
        (ret + recv + 2 ^ k * ((share + (if t then 1 else 0)) % 2))
step_Cong m k share d ret recv t fits hs hd hr hv =
    rw (pow_word m (2 ^ k) fits) (step_of_pow m (2 ^ k) share d ret recv t fits hs hd hr hv)

-- Both sums stay residues.
pub reduce-lt : (m x : ℕ) → reduce m (x % u64) < word_modulus m
reduce-lt m x = elim (ℕ_discrete m 0) [
  | yes e ↦ rw (is_default m e) (omega arith)
  | no ne ↦ let pos : 0 < m = omega arith in rw (not_default m pos) (mod-lt (x % u64) pos)
]
