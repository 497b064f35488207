-- ===== src/Server/Xor/Folds.antt =====
-- The two servers' loops, taken together: the exclusive or of what they gather.
use prio_plus.Base.{
  ℕ, suc, ◌+◌, ◌<◌, ◌≡◌, ◌∙◌, sym, Bool, true, false, List, [], ◌∷◌, Option-cases, inl, inr, arith,
  u64,
}
use prio_plus.Server.{Shares, find, on_found, known_loop, valid_loop, xor64}
use prio_plus.Server.Xor.{xor_comm, xor_assoc, xor_zero, xor_medial, xor_self, xor-lt}

-- The number of the keys that server 0 knows.
abbrev pub count_known : {V : Type 0} → List ℕ → Shares V → ℕ
count_known [] m = 0
count_known (k ∷ ks) m = on_found (find k m) 0 (λ v. 1) + count_known ks m

-- The exclusive or, over the keys that server 0 knows, of the words whose shares the servers hold.
abbrev pub xor_of_shares : {V : Type 0} (at : V → ℕ) → List ℕ → Shares V → (get : ℕ → V) → ℕ
xor_of_shares at [] m get = 0
xor_of_shares at (k ∷ ks) m get =
    let rest = xor_of_shares at ks m get in
    on_found (find k m) rest (λ v. xor64 (xor64 (at v) (at (get k))) rest)

pub xor_of_shares-zero :
    {V : Type 0} (at : V → ℕ) (ks : List ℕ) (m : Shares V) (get : ℕ → V)
    → xor64 0 (xor_of_shares at ks m get) ≡ xor_of_shares at ks m get
xor_of_shares-zero at [] m get = xor_self 64 0
xor_of_shares-zero at (k ∷ ks) m get = elim (Option-cases (find k m)) [
  | inl e ↦ rw e (xor_of_shares-zero at ks m get)
  | inr (v, e) ↦ rw e (xor_zero 64 _ _)
]

module _ {V A : Type 0} (combine : A → V → A) where
  pub known_loop-count :
      (ks : List ℕ) (m : Shares V) (n : ℕ) (a : A)
      → (known_loop combine ks m n a).0.0 ≡ n + count_known ks m
  unfolding known_loop
  known_loop-count [] m n a = omega arith
  known_loop-count (k ∷ ks) m n a = elim (Option-cases (find k m)) [
    | inl e ↦ rw e (known_loop-count ks m n a ∙ omega arith)
    | inr (v, e) ↦ rw e (omega (arith, known_loop-count ks m (suc n) (combine a v)))
  ]

  pub known_loop-known :
      (ks : List ℕ) (m : Shares V) (a : A) → (known_loop combine ks m 0 a).0.0 ≡ count_known ks m
  known_loop-known ks m a = known_loop-count ks m 0 a ∙ omega arith

  module _ (word : A → ℕ) (at : V → ℕ)
      (step : (a : A) (v : V) → word (combine a v) ≡ xor64 (word a) (at v)) where
    pub known_loop-lt :
        (ks : List ℕ) (m : Shares V) (n : ℕ) (a : A)
        → word a < u64
        → word (known_loop combine ks m n a).0.1 < u64
    unfolding known_loop
    known_loop-lt [] m n a h = h
    known_loop-lt (k ∷ ks) m n a h = elim (Option-cases (find k m)) [
      | inl e ↦ rw e (known_loop-lt ks m n a h)
      | inr (v, e) ↦
          rw e
            (known_loop-lt ks m (suc n) (combine a v) (rw (step a v) (xor-lt 64 (word a) (at v))))
    ]

    pub valid_loop-lt :
        (ks : List ℕ) (vs : List Bool) (get : ℕ → V) (b : A)
        → word b < u64
        → word (valid_loop combine ks vs get b) < u64
    unfolding valid_loop
    valid_loop-lt [] vs get b h = h
    valid_loop-lt (k ∷ ks) [] get b h = h
    valid_loop-lt (k ∷ ks) (true ∷ vs) get b h =
        valid_loop-lt ks vs get (combine b (get k))
          (rw (step b (get k)) (xor-lt 64 (word b) (at (get k))))
    valid_loop-lt (k ∷ ks) (false ∷ vs) get b h = valid_loop-lt ks vs get b h

    pub loops-xor :
        (ks : List ℕ) (m : Shares V) (get : ℕ → V) (n : ℕ) (a b : A)
        → (let r = known_loop combine ks m n a in
            xor64 (word r.0.1) (word (valid_loop combine ks r.1 get b))
            ≡ xor64 (xor64 (word a) (word b)) (xor_of_shares at ks m get))
    unfolding known_loop valid_loop
    loops-xor [] m get n a b = sym (xor_comm 64 _ 0 ∙ xor_zero 64 (word a) (word b))
    loops-xor (k ∷ ks) m get n a b = elim (Option-cases (find k m)) [
      | inl e ↦ rw e (loops-xor ks m get n a b)
      | inr (v, e) ↦ rw e (
          loops-xor ks m get (suc n) (combine a v) (combine b (get k))
          ∙ rw (step a v, step b (get k), xor_medial 64 (word a) (word b) (at v) (at (get k)))
              (xor_assoc 64 (xor64 (word a) (word b)) (xor64 (at v) (at (get k))) _))
    ]
