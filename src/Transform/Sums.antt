-- ===== src/Transform/Sums.antt =====
-- Sums over the indices below a bound, and what splits one in two halves.
use prio_plus.Base.{ℕ, zero, suc, ◌+◌, ◌<◌, ◌≡◌, arith, Cong, cong_refl, add-Cong}

abbrev pub sum_below : (n : ℕ) → (ℕ → ℕ) → ℕ
sum_below zero f = 0
sum_below (suc n) f = sum_below n f + f n

pub sum_below-Cong :
    (p n : ℕ) (f g : ℕ → ℕ)
    → ((j : ℕ) → j < n → Cong p (f j) (g j))
    → Cong p (sum_below n f) (sum_below n g)
sum_below-Cong p zero f g h = cong_refl p 0
sum_below-Cong p (suc n) f g h =
    add-Cong (sum_below-Cong p n f g (λ j lt. h j (omega (arith, lt)))) (h n (omega arith))

sum_below-shift :
    (m n : ℕ) (f : ℕ → ℕ) → sum_below (n + m) f ≡ sum_below m f + sum_below n (λ j. f (j + m))
sum_below-shift m zero f = let e : 0 + m ≡ m = omega arith in rw e (omega arith)
sum_below-shift m (suc n) f =
    let e : suc n + m ≡ suc (n + m) = omega arith in rw e (omega (arith, sum_below-shift m n f))

sum_below-add : (n : ℕ) (f g : ℕ → ℕ) → sum_below n (λ j. f j + g j) ≡ sum_below n f + sum_below n g
sum_below-add zero f g = omega arith
sum_below-add (suc n) f g = omega (arith, sum_below-add n f g)

-- The terms of a sum over `2 * h` indices, in pairs.
pub sum_below-halves :
    (h n : ℕ) (f : ℕ → ℕ) → n ≡ h + h → sum_below n f ≡ sum_below h (λ j. f j + f (j + h))
sum_below-halves h n f e =
    rw e (omega (arith, sum_below-shift h h f, sum_below-add h f (λ j. f (j + h))))
