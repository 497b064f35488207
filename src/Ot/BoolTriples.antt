-- ===== src/Ot/BoolTriples.antt =====
-- The Boolean triples of the two servers multiply.
use prio_plus.Base.{
  ◌≡◌, Bool, true, false, List, [], ◌∷◌, Matched, length, arith, xor, ◌&&◌, not, bit, ◌==◌,
  if◌then◌else◌,
}
use prio_plus.Share.{BooleanBeaverTriple}
use prio_plus.Ot.{
  Emp, choose, gen_boolean_beaver_triples, bool_triples, bool_triple_words, bool_triple_choices,
}
use prio_plus.Ot.BitSum.{ot_transfer_lem}

-- Two shares of a triple: the products of the joint bits.
abbrev pub IsBoolTriple : BooleanBeaverTriple → BooleanBeaverTriple → Type 0
IsBoolTriple s t = xor s.c t.c ≡ (xor s.a t.a && xor s.b t.b)

abbrev pub AreBoolTriples : List BooleanBeaverTriple → List BooleanBeaverTriple → Type 0
AreBoolTriples = Matched IsBoolTriple

-- One place: each side receives the other's `r`, or its `r` changed by its `x`, by its own `y`.
here :
    (x0 y0 r0 x1 y1 r1 : Bool)
    → (let b0 = if y0 then bit (xor x1 r1) else bit r1 in
        let b1 = if y1 then bit (xor x0 r0) else bit r0 in
        xor (not (b0 == bit (xor r0 (x0 && y0)))) (not (b1 == bit (xor r1 (x1 && y1))))
        ≡ (xor x0 x1 && xor y0 y1))
unfolding xor
here true y0 r0 true y1 r1 = ground arith
here true y0 r0 false y1 r1 = ground arith
here false y0 r0 true y1 r1 = ground arith
here false y0 r0 false y1 r1 = ground arith

triples_of_choices :
    (rand0 rand1 : List (Bool × Bool × Bool))
    → length rand0 ≡ length rand1
    → (let w0 = bool_triple_words rand0 in
        let w1 = bool_triple_words rand1 in
        AreBoolTriples
          (bool_triples rand0 (choose w1.0 w1.1 (bool_triple_choices rand0)))
          (bool_triples rand1 (choose w0.0 w0.1 (bool_triple_choices rand1))))
unfolding bool_triples bool_triple_words bool_triple_choices
triples_of_choices [] [] h = tt
triples_of_choices [] (t ∷ ts) h = absurd (omega arith)
triples_of_choices (t ∷ ts) [] h = absurd (omega arith)
triples_of_choices ((x0, y0, r0) ∷ ts) ((x1, y1, r1) ∷ us) h =
    (here x0 y0 r0 x1 y1 r1, triples_of_choices ts us (omega arith))

-- For any random bits of the two servers, as many on each side, the triples that they make are
-- shares of products.
pub gen_boolean_beaver_triples-AreBoolTriples :
    (E : Emp) (rand0 rand1 : List (Bool × Bool × Bool))
    → length rand0 ≡ length rand1
    → (let t = gen_boolean_beaver_triples E rand0 rand1 in AreBoolTriples t.0 t.1)
unfolding gen_boolean_beaver_triples
gen_boolean_beaver_triples-AreBoolTriples E rand0 rand1 h =
    rw
      (
        ot_transfer_lem E _ _ (bool_triple_choices rand0),
        ot_transfer_lem E _ _ (bool_triple_choices rand1),
      )
      (triples_of_choices rand0 rand1 h)
