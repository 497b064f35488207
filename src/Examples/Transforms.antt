-- ===== src/Examples/Transforms.antt =====
-- Runs of the transform and of the tables of roots: 5 is a fourth root of 1 modulo 13.
use prio_plus.Base.{
  zero, suc, ◌<◌, ◌==◌, Bool-cases, ==_iff, inl, inr, lt_or_le, sym, ◌∙◌, mul-Cong, mod-Cong, ◌▸◌,
  ℕ, ◌+◌, ◌*◌, ◌/◌, ◌%◌, ◌^◌, ◌≡◌, refl, true, [], some, if◌then◌else◌, get_or, arith, Cong,
  cong_refl,
}
use mathlib.Core.Bool.{true≢false}
use native.Mathlib.Nat.{mod-lt}
use prio_plus.Field.Native.{small_field}
use prio_plus.Transform.{fft_interpolate}
use prio_plus.Transform.Values.{transform}
use prio_plus.Transform.Interpolation.{fft_interpolate-transform}
use prio_plus.Transform.Roots.{PowLib, RootTables, init_roots, init_roots-powers}

abbrev points : ℕ → ℕ
points j = (7 * j + 3) % 13

abbrev invmod : ℕ → ℕ → ℕ
invmod a m = 10

fft_interpolate_example :
    (out : ℕ → ℕ) × (fft_interpolate small_field invmod (2 ^ 2) (λ j. 5 ^ j) points true ≡ some out)
    × Cong 13
        (out 3)
        (transform (2 ^ 2) (λ j. 5 ^ j) points 3 * (if true then invmod (2 ^ 2) 13 else 1))
fft_interpolate_example =
    fft_interpolate-transform small_field invmod 2 5 3 (λ j. 5 ^ j) points true (omega arith)
      record { same = refl } (λ j lt. cong_refl 13 (5 ^ j)) (omega arith)

-- The greatest inverse of `a` below a bound, or 0.
abbrev pub find_inverse : (a m bound : ℕ) → ℕ
find_inverse a m zero = 0
find_inverse a m (suc n) = let rest = find_inverse a m n in if a * n % m == 1 % m then n else rest

pub find_inverse-Cong :
    (a b m bound : ℕ) → b < bound → Cong m (a * b) 1 → Cong m (a * find_inverse a m bound) 1
find_inverse-Cong a b m zero lt h = absurd (omega (arith, lt))
find_inverse-Cong a b m (suc n) lt h = elim (Bool-cases (a * n % m == 1 % m)) [
  | inl e ↦ rw e record { same = (==_iff (a * n % m) (1 % m)).0 e }
  | inr e ↦ elim (lt_or_le b n) [
    | inl below ↦ rw e (find_inverse-Cong a b m n below h)
    | inr ge ↦
        let same : b ≡ n = omega (arith, lt, ge) in
        absurd (true≢false (sym ((==_iff (a * n % m) (1 % m)).1 (rw same at h.same)) ∙ e))
  ]
]

abbrev pub pow_lib : PowLib
pow_lib = record {
  fmpz_powm_ui = λ b e m. b ^ e % m;
  fmpz_invmod = λ a m. find_inverse a m m;
  fmpz_powm_ui_lem = λ b e m pos. refl;
  fmpz_invmod_lem = λ a b m pos h.
      find_inverse-Cong a (b % m) m m (mod-lt b pos) (mul-Cong (cong_refl m a) (mod-Cong m b) ▸ h);
}

abbrev pub no_tables : RootTables
no_tables = record { num_roots = 0; roots = []; invroots = []; roots2 = [] }

init_roots_example :
    (let t = init_roots small_field pow_lib 5 2 2 no_tables in
      let step = 2 ^ 2 / 2 in
      Cong 13 (get_or t.roots 1 0) (5 ^ (step * 1))
      × Cong 13 (get_or t.roots 1 0 * get_or t.invroots 1 0) 1
      × Cong 13 (get_or t.roots2 3 0) (5 ^ (step / 2 * 3))
      × Cong 13 (get_or t.roots2 (2 * 1) 0) (get_or t.roots 1 0))
init_roots_example =
    init_roots-powers small_field pow_lib 5 8 2 2 1 3 no_tables refl record { same = refl }
      (omega arith) (omega arith) refl
