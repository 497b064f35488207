-- ===== src/Base/Lists.antt =====
-- Lists measured and indexed by native numbers, under the library's names.
use Prim.Native.Nat.{ℕ, zero, suc, ◌+◌, ◌-◌, ◌<◌}
use mathlib.Core.Path.{◌≡◌, refl, ap}
use mathlib.Core.Logic.{◌≢◌}
use mathlib.Core.List.{List, [], ◌∷◌, ◌++◌, map}
use mathlib.Core.Option.{Option, none, some}
use native.Mathlib.Omega.{arith}
use prio_plus.Base.Tests.{if◌then◌else◌, ◌==◌, ==_iff}

module _ {ℓ} {A : Type ℓ} where
  abbrev pub length : List A → ℕ
  length [] = 0
  length (x ∷ xs) = suc (length xs)

  abbrev pub get_elem? : List A → ℕ → Option A
  get_elem? [] i = none
  get_elem? (x ∷ xs) zero = some x
  get_elem? (x ∷ xs) (suc i) = get_elem? xs i

  abbrev pub get_or : List A → ℕ → A → A
  get_or [] i d = d
  get_or (x ∷ xs) zero d = x
  get_or (x ∷ xs) (suc i) d = get_or xs i d

  abbrev pub take : ℕ → List A → List A
  take zero xs = []
  take (suc n) [] = []
  take (suc n) (x ∷ xs) = x ∷ take n xs

  abbrev pub drop : ℕ → List A → List A
  drop zero xs = xs
  drop (suc n) [] = []
  drop (suc n) (x ∷ xs) = drop n xs

  abbrev pub replicate : ℕ → A → List A
  replicate zero a = []
  replicate (suc n) a = a ∷ replicate n a

  pub length-replicate : (n : ℕ) (a : A) → length (replicate n a) ≡ n
  length-replicate zero a = refl
  length-replicate (suc n) a = ap suc (length-replicate n a)

  -- The entries `start`, `start + 1`, … of an array, `n` of them.
  abbrev pub table : (n start : ℕ) → (ℕ → A) → List A
  table zero start f = []
  table (suc n) start f = f start ∷ table n (suc start) f

  pub length-table : (n start : ℕ) (f : ℕ → A) → length (table n start f) ≡ n
  length-table zero start f = refl
  length-table (suc n) start f = ap suc (length-table n (suc start) f)

  pub get_or-table : (n s i : ℕ) (f : ℕ → A) (d : A) → i < n → get_or (table n s f) i d ≡ f (s + i)
  get_or-table zero s i f d lt = absurd (omega (arith, lt))
  get_or-table (suc n) s zero f d lt = let e : s + 0 ≡ s = omega arith in rw e refl
  get_or-table (suc n) s (suc i) f d lt =
      let e : s + suc i ≡ suc s + i = omega arith in
      rw e (get_or-table n (suc s) i f d (omega (arith, lt)))

  pub get_or-append_left :
      (xs ys : List A) (i : ℕ) (d : A) → i < length xs → get_or (xs ++ ys) i d ≡ get_or xs i d
  get_or-append_left [] ys i d lt = absurd (omega (arith, lt))
  get_or-append_left (x ∷ xs) ys zero d lt = refl
  get_or-append_left (x ∷ xs) ys (suc i) d lt = get_or-append_left xs ys i d (omega (arith, lt))

  pub get_or-append_right :
      (n : ℕ) (xs ys : List A) (i : ℕ) (d : A)
      → length xs ≡ n
      → get_or (xs ++ ys) (n + i) d ≡ get_or ys i d
  get_or-append_right zero [] ys i d e = let z : 0 + i ≡ i = omega arith in rw z refl
  get_or-append_right zero (x ∷ xs) ys i d e = absurd (omega (arith, e))
  get_or-append_right (suc n) [] ys i d e = absurd (omega (arith, e))
  get_or-append_right (suc n) (x ∷ xs) ys i d e =
      let z : suc n + i ≡ suc (n + i) = omega arith in
      rw z (get_or-append_right n xs ys i d (omega (arith, e)))

  pub length-append : (xs ys : List A) → length (xs ++ ys) ≡ length xs + length ys
  length-append [] ys = omega arith
  length-append (x ∷ xs) ys = omega (arith, length-append xs ys)

  pub length-drop : (n : ℕ) (xs : List A) → length (drop n xs) ≡ length xs - n
  length-drop zero xs = omega arith
  length-drop (suc n) [] = omega arith
  length-drop (suc n) (x ∷ xs) = omega (arith, length-drop n xs)

module _ {ℓ} {A : Type ℓ} where
  pub length-map {κ} : {B : Type κ} (xs : List A) (f : A → B) → length (map f xs) ≡ length xs
  length-map [] f = refl
  length-map (x ∷ xs) f = ap suc (length-map xs f)

-- An array behind a pointer is a function of the index; a write changes it at one index.
abbrev pub update {ℓ} : {A : Type ℓ} → (ℕ → A) → ℕ → A → ℕ → A
update w i v j = if i == j then v else w j

pub update_self {ℓ} : {A : Type ℓ} (w : ℕ → A) (i : ℕ) (v : A) → update w i v i ≡ v
update_self w i v = rw ((==_iff i i).1 refl)

pub update_ne {ℓ} : {A : Type ℓ} (w : ℕ → A) (i : ℕ) (v : A) (j : ℕ) → i ≢ j → update w i v j ≡ w j
update_ne w i v j h = ground arith

-- Two lists of the same length, related place by place.
abbrev pub Matched : {A : Type 0} → (A → A → Type 0) → List A → List A → Type 0
Matched R [] [] = Unit {0}
Matched R (x ∷ xs) (y ∷ ys) = R x y × Matched R xs ys
Matched R _ _ = ⊥

pub Matched-length :
    {A : Type 0} (R : A → A → Type 0) (xs ys : List A) → Matched R xs ys → length xs ≡ length ys
Matched-length R [] [] h = refl
Matched-length R [] (y ∷ ys) h = absurd h
Matched-length R (x ∷ xs) [] h = absurd h
Matched-length R (x ∷ xs) (y ∷ ys) h = ap suc (Matched-length R xs ys h.1)

pub Matched-append :
    {A : Type 0} (R : A → A → Type 0) (xs ys xs' ys' : List A)
    → Matched R xs ys
    → Matched R xs' ys'
    → Matched R (xs ++ xs') (ys ++ ys')
Matched-append R [] [] xs' ys' h k = k
Matched-append R [] (y ∷ ys) xs' ys' h k = absurd h
Matched-append R (x ∷ xs) [] xs' ys' h k = absurd h
Matched-append R (x ∷ xs) (y ∷ ys) xs' ys' h k = (h.0, Matched-append R xs ys xs' ys' h.1 k)
