-- ===== src/Transform/Roots.antt =====
-- constants.cpp: `init_roots`, the tables of roots of unity that the transforms use. Its `N` is at
-- least 1; `fmpz_powm_ui` and `fmpz_invmod` of FLINT are parameters, and so are `Int_Gen` and
-- `twoOrder`, which constants.h sets.
use prio_plus.Base.{
  ℕ, zero, suc, ◌+◌, ◌-◌, ◌*◌, ◌/◌, ◌%◌, ◌^◌, ◌<◌, ◌≤◌, ◌≡◌, refl, ap, ◌∙◌, sym, false, List, [],
  ◌∷◌, ◌==◌, if◌then◌else◌, get_or, arith, Cong, ◌▸◌, cong_of_eq, cong_refl, cong_sym, mul-Cong,
  mod-Cong,
}
use native.Mathlib.Nat.{pow-suc, pow-zero}
use prio_plus.Field.{Field, mul_mod, mul_mod-Cong}
use prio_plus.Transform.Interpolation.{pow_add}

pub record PowLib : Type 0 where
  pub fmpz_powm_ui : (b e m : ℕ) → ℕ
  pub fmpz_invmod : (a m : ℕ) → ℕ
  pub fmpz_powm_ui_lem : (b e m : ℕ) → 0 < m → fmpz_powm_ui b e m ≡ b ^ e % m
  pub fmpz_invmod_lem : (a b m : ℕ) → 0 < m → Cong m (a * b) 1 → Cong m (a * fmpz_invmod a m) 1

-- The global tables.
pub record RootTables : Type 0 where
  pub num_roots : ℕ
  pub roots : List ℕ
  pub invroots : List ℕ
  pub roots2 : List ℕ

module _ (K : Field) where
  -- The loops that fill a table from its second entry on: each entry is the one before times `g`.
  unfoldable pub power_loop : (rounds previous g : ℕ) → List ℕ
  power_loop zero previous g = []
  power_loop (suc rounds) previous g =
      let next = mul_mod K previous g in next ∷ power_loop rounds next g

  unfoldable pub init_roots : PowLib → (gen two_order n : ℕ) → RootTables → RootTables
  unfolding power_loop
  init_roots L gen two_order n old =
      let step_size = 2 ^ two_order / n in
      let g = L.fmpz_powm_ui gen step_size K.modulus in
      let ginv = L.fmpz_powm_ui (L.fmpz_invmod gen K.modulus) step_size K.modulus in
      let ghalf = L.fmpz_powm_ui gen (step_size / 2) K.modulus in
      if old.num_roots == n then old else record {
        num_roots = n;
        roots = 1 ∷ power_loop (n - 1) 1 g;
        invroots = 1 ∷ power_loop (n - 1) 1 ginv;
        roots2 = 1 ∷ power_loop (2 * n - 1) 1 ghalf;
      }

times_power : (previous g y : ℕ) → previous * g * y ≡ previous * (y * g)
times_power previous g y = grind arith

twice : (h i : ℕ) → h * (2 * i) ≡ h * 2 * i
twice h i = grind arith

halves : (step i : ℕ) → step % 2 ≡ 0 → step / 2 * (2 * i) ≡ step * i
halves step i even =
    let e : step ≡ step / 2 * 2 = omega (arith, even) in
    twice (step / 2) i ∙ ap (λ (t : ℕ). t * i) (sym e)

pairs : (p a q b : ℕ) → p * a * (q * b) ≡ p * q * (a * b)
pairs p a q b = grind arith

pow_mul : (b m i : ℕ) → (b ^ m) ^ i ≡ b ^ (m * i)
pow_mul b m zero = let e : m * 0 ≡ 0 = omega arith in rw (e, pow-zero b) (pow-zero (b ^ m))
pow_mul b m (suc i) =
    let e : m * suc i ≡ m * i + m = grind arith in
    rw (e, pow-suc (b ^ m) i, pow_mul b m i, pow_add b (m * i) m) refl

module _ (K : Field) where
  open K use {modulus, modulus_pos}

  power_loop-Cong :
      (n previous g i : ℕ)
      → i ≤ n
      → Cong modulus (get_or (previous ∷ power_loop K n previous g) i 0) (previous * g ^ i)
  unfolding power_loop
  power_loop-Cong n previous g zero le = cong_of_eq modulus (rw (pow-zero g) (omega arith))
  power_loop-Cong zero previous g (suc i) le = absurd (omega (arith, le))
  power_loop-Cong (suc n) previous g (suc i) le =
      power_loop-Cong n (mul_mod K previous g) g i (omega (arith, le))
      ▸ mul-Cong (mul_mod-Cong K previous g) (cong_refl modulus (g ^ i))
      ▸ cong_of_eq modulus
          (times_power previous g (g ^ i) ∙ ap (λ (t : ℕ). previous * t) (sym (pow-suc g i)))

  pow-Cong : (a b i : ℕ) → Cong modulus a b → Cong modulus (a ^ i) (b ^ i)
  pow-Cong a b zero h = cong_of_eq modulus (pow-zero a ∙ sym (pow-zero b))
  pow-Cong a b (suc i) h =
      cong_of_eq modulus (pow-suc a i)
      ▸ mul-Cong (pow-Cong a b i h) h
      ▸ cong_of_eq modulus (sym (pow-suc b i))

  table-Cong :
      (L : PowLib) (n b m i : ℕ)
      → i ≤ n
      → Cong modulus (get_or (1 ∷ power_loop K n 1 (L.fmpz_powm_ui b m modulus)) i 0) (b ^ (m * i))
  table-Cong L n b m i le =
      power_loop-Cong n 1 (L.fmpz_powm_ui b m modulus) i le
      ▸ cong_of_eq modulus (omega arith)
      ▸ pow-Cong (L.fmpz_powm_ui b m modulus) (b ^ m) i (
          cong_of_eq modulus (L.fmpz_powm_ui_lem b m modulus modulus_pos)
          ▸ mod-Cong modulus (b ^ m))
      ▸ cong_of_eq modulus (pow_mul b m i)

  pow-inverse : (a b i : ℕ) → Cong modulus (a * b) 1 → Cong modulus (a ^ i * b ^ i) 1
  pow-inverse a b zero h = cong_of_eq modulus (rw (pow-zero a, pow-zero b) refl)
  pow-inverse a b (suc i) h =
      cong_of_eq modulus (rw (pow-suc a i, pow-suc b i) (pairs (a ^ i) a (b ^ i) b))
      ▸ mul-Cong (pow-inverse a b i h) h
      ▸ cong_of_eq modulus (omega arith)

  -- For tables of another size before, a number of roots whose step is even, and an `Int_Gen` that has
  -- an inverse modulo `Int_Modulus`: at each index, modulo `Int_Modulus`, the table of roots has that
  -- power of `Int_Gen ^ step_size`, the entry of the table of inverse roots times it is 1, the table of
  -- twice as many roots has at each of its indices that power of `Int_Gen ^ (step_size / 2)`, and at
  -- twice the index the same as the table of roots.
  pub init_roots-powers :
      (L : PowLib) (gen inverse two_order n i j : ℕ) (old : RootTables)
      → (old.num_roots == n) ≡ false
      → Cong modulus (gen * inverse) 1
      → i < n
      → j < 2 * n
      → 2 ^ two_order / n % 2 ≡ 0
      → (let t = init_roots K L gen two_order n old in
          let step = 2 ^ two_order / n in
          Cong modulus (get_or t.roots i 0) (gen ^ (step * i))
          × Cong modulus (get_or t.roots i 0 * get_or t.invroots i 0) 1
          × Cong modulus (get_or t.roots2 j 0) (gen ^ (step / 2 * j))
          × Cong modulus (get_or t.roots2 (2 * i) 0) (get_or t.roots i 0))
  unfolding init_roots
  init_roots-powers L gen inverse two_order n i j old other invertible lt lt2 even =
      let step = 2 ^ two_order / n in
      let ginv = L.fmpz_invmod gen modulus in
      let whole : step / 2 * (2 * i) ≡ step * i = halves step i even in
      let at_roots = table-Cong L (n - 1) gen step i (omega (arith, lt)) in
      let at_inverses = table-Cong L (n - 1) ginv step i (omega (arith, lt)) in
      let one = L.fmpz_invmod_lem gen inverse modulus modulus_pos invertible in
      rw other (
        at_roots,
        mul-Cong at_roots at_inverses ▸ pow-inverse gen ginv (step * i) one,
        table-Cong L (2 * n - 1) gen (step / 2) j (omega (arith, lt2)),
        table-Cong L (2 * n - 1) gen (step / 2) (2 * i) (omega (arith, lt))
            ▸ cong_of_eq modulus (ap (λ (t : ℕ). gen ^ t) whole)
            ▸ cong_sym at_roots,
      )
