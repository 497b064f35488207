-- ===== src/Correlated/Products.antt =====
-- `multiplyBoolShares`: the two servers' results share the products, place by place.
use prio_plus.Base.{
  ◌≡◌, refl, ◌∙◌, Bool, true, false, List, [], ◌∷◌, length, xor, ◌&&◌, arith, Option, some,
}
use prio_plus.Field.{Field}
use prio_plus.Correlated.{
  Store, Supply, ◌>>=◌, check_bool_triples, mask_bits, multiply_receive, multiply_bool_shares,
}
use prio_plus.Correlated.Queues.{SuppliesMatch, StoresMatch}
use prio_plus.Correlated.Queues.Triples.{
  check_bool_triples-StoresMatch, get_bool_triple-TriplesTaken,
}

xor_regroup : (a b c d : Bool) → xor (xor a b) (xor c d) ≡ xor (xor a c) (xor b d)
unfolding xor
xor_regroup a b c d = ground arith

xor_comm : (a b : Bool) → xor a b ≡ xor b a
unfolding xor
xor_comm a b = ground arith

join :
    (c0 c1 x0 x1 y0 y1 d e : Bool)
    → xor (xor (xor c0 (xor (x0 && e) (y0 && d))) (d && e)) (xor c1 (xor (x1 && e) (y1 && d)))
      ≡ xor (xor (xor c0 c1) (xor (xor x0 x1 && e) (xor y0 y1 && d))) (d && e)
unfolding xor
join c0 c1 x0 x1 y0 y1 true true = ground arith
join c0 c1 x0 x1 y0 y1 true false = ground arith
join c0 c1 x0 x1 y0 y1 false true = ground arith
join c0 c1 x0 x1 y0 y1 false false = ground arith

unmask :
    (x y a b : Bool)
    → (let d = xor x a in
        let e = xor y b in xor (xor (a && b) (xor (x && e) (y && d))) (d && e) ≡ (x && y))
unfolding xor
unmask x y a b = ground arith

-- One place of the two lists of masks, and what a Boolean triple makes of them.
abbrev IsMasked :
    (Bool × Bool) × (Bool × Bool) → (Bool × Bool × Bool) × (Bool × Bool × Bool) → Type 0
IsMasked ((x0, y0), (x1, y1)) ((d0, e0, z0), (d1, e1, z1)) =
    (a b : Bool) × (xor d0 d1 ≡ xor (xor x0 x1) a)
    × (xor e0 e1 ≡ xor (xor y0 y1) b)
    × (xor z0 z1 ≡ (a && b))

abbrev AreMasked : (xy0 xy1 : List (Bool × Bool)) (m0 m1 : List (Bool × Bool × Bool)) → Type 0
AreMasked [] [] [] [] = Unit {0}
AreMasked (p ∷ ps) (q ∷ qs) (m ∷ ms) (n ∷ ns) = IsMasked (p, q) (m, n) × AreMasked ps qs ms ns
AreMasked _ _ _ _ = ⊥

-- The results share the products of the shared bits.
abbrev pub AreProducts : (xy0 xy1 : List (Bool × Bool)) (z0 z1 : List Bool) → Type 0
AreProducts [] [] [] [] = Unit {0}
AreProducts ((x0, y0) ∷ ps) ((x1, y1) ∷ qs) (z0 ∷ zs) (z1 ∷ ws) =
    (xor z0 z1 ≡ (xor x0 x1 && xor y0 y1)) × AreProducts ps qs zs ws
AreProducts _ _ _ _ = ⊥

place :
    (x0 y0 x1 y1 d0 e0 z0 d1 e1 z1 : Bool)
    → IsMasked ((x0, y0), (x1, y1)) ((d0, e0, z0), (d1, e1, z1))
    → (let d = xor d0 d1 in
        let e = xor e0 e1 in
        xor (xor (xor z0 (xor (x0 && e) (y0 && d))) (d && e)) (xor z1 (xor (x1 && e) (y1 && d)))
        ≡ (xor x0 x1 && xor y0 y1))
place x0 y0 x1 y1 d0 e0 z0 d1 e1 z1 (a, b, hd, he, hz) =
    join z0 z1 x0 x1 y0 y1 (xor d0 d1) (xor e0 e1)
    ∙ rw (hd, he, hz) (unmask (xor x0 x1) (xor y0 y1) a b)

receive-AreProducts :
    (xy0 xy1 : List (Bool × Bool)) (m0 m1 : List (Bool × Bool × Bool))
    → AreMasked xy0 xy1 m0 m1
    → AreProducts xy0 xy1 (multiply_receive 0 xy0 m0 m1) (multiply_receive 1 xy1 m1 m0)
unfolding multiply_receive
receive-AreProducts [] [] [] [] h = tt
receive-AreProducts [] [] [] (n ∷ ns) h = absurd h
receive-AreProducts [] [] (m ∷ ms) ns h = absurd h
receive-AreProducts [] (q ∷ qs) ms ns h = absurd h
receive-AreProducts (p ∷ ps) [] ms ns h = absurd h
receive-AreProducts (p ∷ ps) (q ∷ qs) [] ns h = absurd h
receive-AreProducts (p ∷ ps) (q ∷ qs) (m ∷ ms) [] h = absurd h
receive-AreProducts ((x0, y0) ∷ ps) ((x1, y1) ∷ qs) ((d0, e0, z0) ∷ ms) ((d1, e1, z1) ∷ ns) h = (
  rw (xor_comm d1 d0, xor_comm e1 e0) (place x0 y0 x1 y1 d0 e0 z0 d1 e1 z1 h.0),
  receive-AreProducts ps qs ms ns h.1,
)

module _ (K : Field) (S0 S1 : Supply) (supply : SuppliesMatch K S0 S1) where
  record Masked (xy0 xy1 : List (Bool × Bool)) (r0 r1 : Option (List (Bool × Bool × Bool) × Store))
      : Type 0 where
    m0 : List (Bool × Bool × Bool)
    m1 : List (Bool × Bool × Bool)
    rest0 : Store
    rest1 : Store
    made0 : r0 ≡ some (m0, rest0)
    made1 : r1 ≡ some (m1, rest1)
    masked : AreMasked xy0 xy1 m0 m1
    in_step : StoresMatch K rest0 rest1

  mask_bits-Masked :
      (xy0 xy1 : List (Bool × Bool)) (s0 s1 : Store)
      → length xy0 ≡ length xy1
      → StoresMatch K s0 s1
      → Masked xy0 xy1 (mask_bits S0 xy0 s0) (mask_bits S1 xy1 s1)
  unfolding mask_bits
  mask_bits-Masked [] [] s0 s1 e h = record {
    m0 = [];
    m1 = [];
    rest0 = s0;
    rest1 = s1;
    made0 = refl;
    made1 = refl;
    masked = tt;
    in_step = h;
  }
  mask_bits-Masked [] (q ∷ qs) s0 s1 e h = absurd (omega arith)
  mask_bits-Masked (p ∷ ps) [] s0 s1 e h = absurd (omega arith)
  mask_bits-Masked ((x0, y0) ∷ ps) ((x1, y1) ∷ qs) s0 s1 e h =
      let t = get_bool_triple-TriplesTaken K S0 S1 supply s0 s1 h in
      let ih = mask_bits-Masked ps qs t.rest0 t.rest1 (omega arith) t.in_step in
      record {
        m0 = (xor x0 t.t0.a, xor y0 t.t0.b, t.t0.c) ∷ ih.m0;
        m1 = (xor x1 t.t1.a, xor y1 t.t1.b, t.t1.c) ∷ ih.m1;
        rest0 = ih.rest0;
        rest1 = ih.rest1;
        made0 = rw (t.taken0, ◌>>=◌, ih.made0);
        made1 = rw (t.taken1, ◌>>=◌, ih.made1);
        masked = (
          (
            xor t.t0.a t.t1.a,
            xor t.t0.b t.t1.b,
            xor_regroup x0 t.t0.a x1 t.t1.a,
            xor_regroup y0 t.t0.b y1 t.t1.b,
            t.multiplies,
          ),
          ih.masked,
        );
        in_step = ih.in_step;
      }

  -- For stores in step and as many places on both sides, `multiplyBoolShares` ends on both servers
  -- with shares of the products, and with stores that are in step again.
  pub multiply_bool_shares_lem :
      (xy0 xy1 : List (Bool × Bool)) (s0 s1 : Store)
      → length xy0 ≡ length xy1
      → StoresMatch K s0 s1
      → (z0 z1 : List Bool) × (t0 t1 : Store) × (multiply_bool_shares S0 S1 xy0 xy1 s0 s1
          ≡ some ((z0, z1), (t0, t1)))
        × AreProducts xy0 xy1 z0 z1
        × StoresMatch K t0 t1
  unfolding multiply_bool_shares
  multiply_bool_shares_lem xy0 xy1 s0 s1 e h =
      let c = check_bool_triples-StoresMatch K S0 S1 supply (length xy0) s0 s1 h in
      let m =
        mask_bits-Masked xy0 xy1 (check_bool_triples S0 (length xy0) s0)
          (check_bool_triples S1 (length xy0) s1) e c.0 in
      (
        multiply_receive 0 xy0 m.m0 m.m1,
        multiply_receive 1 xy1 m.m1 m.m0,
        m.rest0,
        m.rest1,
        rw (← e, m.made0, ◌>>=◌, m.made1),
        receive-AreProducts xy0 xy1 m.m0 m.m1 m.masked,
        m.in_step,
      )
