-- ===== src/Correlated/Conversion.antt =====
-- `b2a_daBit_single`: bits shared by exclusive or become bits shared by a sum.
use prio_plus.Base.{
  ℕ, ◌+◌, ◌≤◌, ◌≡◌, refl, ap, Bool, true, false, List, [], ◌∷◌, length, xor, bit, if◌then◌else◌,
  arith, Option, some, Matched, Cong, ◌▸◌, cong_of_eq, cong_sym, cong_refl, add-Cong,
  add-Cong_cancel, Bool-cases, inl, inr,
}
use prio_plus.Field.{Field, sub_mod, sub_mod-Cong}
use prio_plus.Share.{DaBit}
use prio_plus.Correlated.{
  Store, Supply, ◌>>=◌, check_dabits, get_dabit, mask_dabits, b2a_single_receive, b2a_dabit_single,
}
use prio_plus.Correlated.Queues.{AreHalves, SuppliesMatch, StoresMatch}
use prio_plus.Correlated.Queues.DaBits.{check_dabits-StoresMatch}

-- The bit that is left when the masks meet.
unmasked :
    (x0 x1 b0 b1 : Bool)
    → xor (xor x0 b0) (xor x1 b1) ≡ true
    → bit (xor b0 b1) + bit (xor x0 x1) ≡ 1
unfolding xor
unmasked x0 x1 b0 b1 h = ground arith

unmasked_same :
    (x0 x1 b0 b1 : Bool) → xor (xor x0 b0) (xor x1 b1) ≡ false → bit (xor b0 b1) ≡ bit (xor x0 x1)
unfolding xor
unmasked_same x0 x1 b0 b1 h = ground arith

xor_comm : (a b : Bool) → xor a b ≡ xor b a
unfolding xor
xor_comm a b = ground arith

module _ (K : Field) where
  open K use {modulus, modulus_pos}

  -- The results share the bits that the arguments share.
  abbrev pub AreSummed : (x0 x1 : List Bool) (p0 p1 : List ℕ) → Type 0
  AreSummed [] [] [] [] = Unit {0}
  AreSummed (x ∷ xs) (y ∷ ys) (p ∷ ps) (q ∷ qs) =
      Cong modulus (p + q) (bit (xor x y)) × AreSummed xs ys ps qs
  AreSummed _ _ _ _ = ⊥

  abbrev IsMasked : (x0 x1 : Bool) → Bool × ℕ → Bool × ℕ → Type 0
  IsMasked x0 x1 (v0, p0) (v1, p1) =
      (b0 b1 : Bool) × (v0 ≡ xor x0 b0)
      × (v1 ≡ xor x1 b1)
      × Cong modulus (p0 + p1) (bit (xor b0 b1))

  abbrev AreMasked : (x0 x1 : List Bool) (m0 m1 : List (Bool × ℕ)) → Type 0
  AreMasked [] [] [] [] = Unit {0}
  AreMasked (x ∷ xs) (y ∷ ys) (m ∷ ms) (n ∷ ns) = IsMasked x y m n × AreMasked xs ys ms ns
  AreMasked _ _ _ _ = ⊥

  -- Where the masked bit is 1, server 1 adds it and both negate.
  flipped :
      (p0 p1 b x : ℕ)
      → Cong modulus (p0 + p1) b
      → b + x ≡ 1
      → Cong modulus (sub_mod K 0 p0 + sub_mod K 1 p1) x
  flipped p0 p1 b x h e = add-Cong_cancel b modulus_pos (
      add-Cong (cong_refl modulus (sub_mod K 0 p0 + sub_mod K 1 p1)) (cong_sym h)
      ▸ cong_of_eq modulus (omega arith)
      ▸ add-Cong (sub_mod-Cong K 0 p0) (sub_mod-Cong K 1 p1)
      ▸ cong_of_eq modulus (omega arith))

  place :
      (x0 x1 v0 v1 : Bool) (p0 p1 : ℕ)
      → IsMasked x0 x1 (v0, p0) (v1, p1)
      → Cong modulus
          ((if xor v0 v1 then sub_mod K 0 p0 else p0) + (if xor v1 v0 then sub_mod K 1 p1 else p1))
          (bit (xor x0 x1))
  place x0 x1 v0 v1 p0 p1 (b0, b1, e0, e1, h) =
      rw (xor_comm v1 v0, e0, e1)
        (elim (Bool-cases (xor (xor x0 b0) (xor x1 b1))) [
          | inl odd ↦ rw odd (flipped p0 p1 (bit (xor b0 b1)) _ h (unmasked x0 x1 b0 b1 odd))
          | inr even ↦ rw even (h ▸ cong_of_eq modulus (unmasked_same x0 x1 b0 b1 even))
        ])

  receive-AreSummed :
      (x0 x1 : List Bool) (m0 m1 : List (Bool × ℕ))
      → AreMasked x0 x1 m0 m1
      → AreSummed x0 x1 (b2a_single_receive K 0 m0 m1) (b2a_single_receive K 1 m1 m0)
  unfolding b2a_single_receive
  receive-AreSummed [] [] [] [] h = tt
  receive-AreSummed [] [] [] (n ∷ ns) h = absurd h
  receive-AreSummed [] [] (m ∷ ms) ns h = absurd h
  receive-AreSummed [] (y ∷ ys) ms ns h = absurd h
  receive-AreSummed (x ∷ xs) [] ms ns h = absurd h
  receive-AreSummed (x ∷ xs) (y ∷ ys) [] ns h = absurd h
  receive-AreSummed (x ∷ xs) (y ∷ ys) (m ∷ ms) [] h = absurd h
  receive-AreSummed (x ∷ xs) (y ∷ ys) ((v0, p0) ∷ ms) ((v1, p1) ∷ ns) h =
      (place x y v0 v1 p0 p1 h.0, receive-AreSummed xs ys ms ns h.1)

  module _ (S0 S1 : Supply) (supply : SuppliesMatch K S0 S1) where
    record DaBitsTaken (s0 s1 : Store) : Type 0 where
      d0 : DaBit
      d1 : DaBit
      rest0 : Store
      rest1 : Store
      taken0 : get_dabit K S0 s0 ≡ some (d0, rest0)
      taken1 : get_dabit K S1 s1 ≡ some (d1, rest1)
      halves : AreHalves K d0 d1
      in_step : StoresMatch K rest0 rest1

    front :
        (c0 c1 : Store) (q0 q1 : List DaBit)
        → StoresMatch K c0 c1
        → 1 ≤ length c0.dabit_store
        → c0.dabit_store ≡ q0
        → c1.dabit_store ≡ q1
        → (d0 d1 : DaBit) × (r0 r1 : List DaBit) × (c0.dabit_store ≡ d0 ∷ r0)
          × (c1.dabit_store ≡ d1 ∷ r1)
          × AreHalves K d0 d1
          × Matched (AreHalves K) r0 r1
    front c0 c1 [] q1 h le e0 e1 = absurd (omega (arith, ap length e0))
    front c0 c1 (d0 ∷ r0) [] h le e0 e1 = absurd (rw (e0, e1) at h.dabits)
    front c0 c1 (d0 ∷ r0) (d1 ∷ r1) h le e0 e1 =
        let m = rw (e0, e1) at h.dabits in (d0, d1, r0, r1, e0, e1, m.0, m.1)

    get_dabit-DaBitsTaken : (s0 s1 : Store) → StoresMatch K s0 s1 → DaBitsTaken s0 s1
    unfolding get_dabit
    get_dabit-DaBitsTaken s0 s1 h =
        let c0 = check_dabits K S0 1 s0 in
        let c1 = check_dabits K S1 1 s1 in
        let c = check_dabits-StoresMatch K S0 S1 supply 1 s0 s1 h in
        let (d0, d1, r0, r1, e0, e1, good, rest) = front c0 c1 _ _ c.0 c.1 refl refl in
        record {
          d0 = d0;
          d1 = d1;
          rest0 = record c0 { dabit_store = r0 };
          rest1 = record c1 { dabit_store = r1 };
          taken0 = rw e0;
          taken1 = rw e1;
          halves = good;
          in_step = record {
            batch = c.0.batch;
            mode = c.0.mode;
            first = c.0.first;
            second = c.0.second;
            triples = c.0.triples;
            dabits = rest;
          };
        }

    record Masked (x0 x1 : List Bool) (r0 r1 : Option (List (Bool × ℕ) × Store)) : Type 0 where
      m0 : List (Bool × ℕ)
      m1 : List (Bool × ℕ)
      rest0 : Store
      rest1 : Store
      made0 : r0 ≡ some (m0, rest0)
      made1 : r1 ≡ some (m1, rest1)
      masked : AreMasked x0 x1 m0 m1
      in_step : StoresMatch K rest0 rest1

    mask_dabits-Masked :
        (x0 x1 : List Bool) (s0 s1 : Store)
        → length x0 ≡ length x1
        → StoresMatch K s0 s1
        → Masked x0 x1 (mask_dabits K S0 x0 s0) (mask_dabits K S1 x1 s1)
    unfolding mask_dabits
    mask_dabits-Masked [] [] s0 s1 e h = record {
      m0 = [];
      m1 = [];
      rest0 = s0;
      rest1 = s1;
      made0 = refl;
      made1 = refl;
      masked = tt;
      in_step = h;
    }
    mask_dabits-Masked [] (q ∷ qs) s0 s1 e h = absurd (omega arith)
    mask_dabits-Masked (p ∷ ps) [] s0 s1 e h = absurd (omega arith)
    mask_dabits-Masked (x ∷ xs) (y ∷ ys) s0 s1 e h =
        let t = get_dabit-DaBitsTaken s0 s1 h in
        let ih = mask_dabits-Masked xs ys t.rest0 t.rest1 (omega arith) t.in_step in
        record {
          m0 = (xor x t.d0.b2, t.d0.bp) ∷ ih.m0;
          m1 = (xor y t.d1.b2, t.d1.bp) ∷ ih.m1;
          rest0 = ih.rest0;
          rest1 = ih.rest1;
          made0 = rw (t.taken0, ◌>>=◌, ih.made0);
          made1 = rw (t.taken1, ◌>>=◌, ih.made1);
          masked = ((t.d0.b2, t.d1.b2, refl, refl, t.halves), ih.masked);
          in_step = ih.in_step;
        }

    -- For stores in step and as many bits on both sides, `b2a_daBit_single` ends on both servers with
    -- sums modulo `Int_Modulus` that share the bits, and with stores that are in step again.
    pub b2a_dabit_single_lem :
        (x0 x1 : List Bool) (s0 s1 : Store)
        → length x0 ≡ length x1
        → StoresMatch K s0 s1
        → (p0 p1 : List ℕ) × (t0 t1 : Store) × (b2a_dabit_single K S0 S1 x0 x1 s0 s1
            ≡ some ((p0, p1), (t0, t1)))
          × AreSummed x0 x1 p0 p1
          × StoresMatch K t0 t1
    unfolding b2a_dabit_single
    b2a_dabit_single_lem x0 x1 s0 s1 e h =
        let c = check_dabits-StoresMatch K S0 S1 supply (length x0) s0 s1 h in
        let m =
          mask_dabits-Masked x0 x1 (check_dabits K S0 (length x0) s0)
            (check_dabits K S1 (length x1) s1) e (rw (← e) c.0) in
        (
          b2a_single_receive K 0 m.m0 m.m1,
          b2a_single_receive K 1 m.m1 m.m0,
          m.rest0,
          m.rest1,
          rw (m.made0, ◌>>=◌, m.made1),
          receive-AreSummed x0 x1 m.m0 m.m1 m.masked,
          m.in_step,
        )
