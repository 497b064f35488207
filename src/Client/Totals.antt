-- ===== src/Client/Totals.antt =====
-- Sums over the entries of a map, whatever their order.
use prio_plus.Base.{ℕ, ◌+◌, ◌≡◌, refl, ap, ◌∙◌, List, [], ◌∷◌, arith}
use mathlib.Core.Path.{ap₂}
use mathlib.Core.List.{Perm, Permᴰ}
use mathlib.Core.Logic.{∥∥₁_elim}
use native.Mathlib.Nat.{ℕ_set}

-- A sum over a list does not depend on the order.
abbrev pub total : {A : Type 0} (f : A → ℕ) → List A → ℕ
total f [] = 0
total f (x ∷ xs) = f x + total f xs

total-permuted : {A : Type 0} (f : A → ℕ) {xs ys : List A} → Permᴰ xs ys → total f xs ≡ total f ys
total-permuted f Permᴰ.nil = refl
total-permuted f (Permᴰ.cons e d) = ap₂ ◌+◌ (ap f e) (total-permuted f d)
total-permuted f (Permᴰ.swap e g) = omega (arith, ap f e, ap f g)
total-permuted f (Permᴰ.trans d e) = total-permuted f d ∙ total-permuted f e

pub total-perm : {A : Type 0} (f : A → ℕ) (xs ys : List A) → Perm xs ys → total f xs ≡ total f ys
total-perm f xs ys h = ∥∥₁_elim h (ℕ_set (total f xs) (total f ys)) (total-permuted f)
