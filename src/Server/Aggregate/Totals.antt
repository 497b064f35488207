-- ===== src/Server/Aggregate/Totals.antt =====
-- The converted rows that `accumulate` adds up on the two servers.
use prio_plus.Base.{
  ℕ, zero, suc, ◌+◌, ◌<◌, ◌≡◌, refl, ap, Bool, true, false, List, [], ◌∷◌, arith, length, get_or,
  bit, ◌∙◌, sym, Cong, ◌▸◌, cong_of_eq, add-Cong,
}
use native.Mathlib.Nat.{mod-lt}
use prio_plus.Field.{Field, add_mod-Cong, add_mod_lem}
use prio_plus.Ot.IntSum.Step.{word_modulus}
use prio_plus.Ot.IntSum.Value.{AreConverted}
use prio_plus.Ot.IntSum.Shares.{AllConverted}
use prio_plus.Correlated.OtConversion.{all_valid, xor_row}
use prio_plus.Server.Sums.{valid_sum, valid_rows, HaveLength, accumulate-Cong, length-accumulate}
use prio_plus.Server.{accumulate}
use prio_plus.Server.Aggregate.{with_valid, add_arrays}
use prio_plus.Server.Aggregate.Rows.{HaveRowLength}

-- The exclusive or of the two servers' rows, by rows.
abbrev pub xor_list : (ns : List ℕ) (x0 x1 : List (List ℕ)) → List (List ℕ)
xor_list ns (row0 ∷ x0) (row1 ∷ x1) = xor_row ns row0 row1 ∷ xor_list ns x0 x1
xor_list ns _ _ = []

length-converted :
    (m : ℕ) (ns row0 row1 p q : List ℕ)
    → AreConverted m true ns row0 row1 p q
    → (length p ≡ length ns) × (length q ≡ length ns)
length-converted m [] [] [] [] [] h = (refl, refl)
length-converted m (n ∷ ns) (a ∷ row0) (b ∷ row1) (s ∷ p) (r ∷ q) h =
    let ih = length-converted m ns row0 row1 p q h.1 in (ap suc ih.0, ap suc ih.1)
length-converted m ns row0 row1 p q h = absurd h

-- Converted rows are as many as the shares, and as long as the numbers of bits.
pub record AreRows (k : ℕ) (x p q : List (List ℕ)) : Type 0 where
  pub length_sent : length p ≡ length x
  pub length_got : length q ≡ length x
  pub sent : HaveRowLength k p
  pub got : HaveRowLength k q

pub converted-AreRows :
    (m : ℕ) (ns : List ℕ) (x0 x1 p q : List (List ℕ))
    → AllConverted m ns (all_valid x0) x1 p q
    → AreRows (length ns) x0 p q
converted-AreRows m ns [] [] [] [] h = record {
  length_sent = refl;
  length_got = refl;
  sent = tt;
  got = tt;
}
converted-AreRows m ns (row0 ∷ x0) (row1 ∷ x1) (s ∷ p) (r ∷ q) h =
    let ih = converted-AreRows m ns x0 x1 p q h.1 in
    let here = length-converted m ns row0 row1 s r h.0 in
    record {
      length_sent = ap suc ih.length_sent;
      length_got = ap suc ih.length_got;
      sent = (here.0, ih.sent);
      got = (here.1, ih.got);
    }
converted-AreRows m ns x0 x1 p q h = absurd h

pub HaveLength-with_valid :
    (K : Field) (k : ℕ) (rows : List (List ℕ)) (valid : List Bool)
    → HaveRowLength k rows
    → HaveLength K k (with_valid rows valid)
HaveLength-with_valid K k [] valid h = tt
HaveLength-with_valid K k (row ∷ rows) [] h = tt
HaveLength-with_valid K k (row ∷ rows) (v ∷ valid) h =
    (h.0, HaveLength-with_valid K k rows valid h.1)

module _ (m : ℕ) where
  place-Cong :
      (ns row0 row1 p q : List ℕ) (j : ℕ)
      → AreConverted m true ns row0 row1 p q
      → Cong (word_modulus m) (get_or p j 0 + get_or q j 0) (get_or (xor_row ns row0 row1) j 0)
  place-Cong [] [] [] [] [] j h = cong_of_eq (word_modulus m) refl
  place-Cong (n ∷ ns) (a ∷ row0) (b ∷ row1) (s ∷ p) (r ∷ q) zero h = h.0
  place-Cong (n ∷ ns) (a ∷ row0) (b ∷ row1) (s ∷ p) (r ∷ q) (suc j) h =
      place-Cong ns row0 row1 p q j h.1
  place-Cong ns row0 row1 p q j h = absurd h

  -- The sums over the valid rows of the two servers add up to the sum over the rows of the values.
  pub totals-Cong :
      (K : Field) (ns : List ℕ) (x0 x1 p q : List (List ℕ)) (valid : List Bool) (j : ℕ)
      → AllConverted m ns (all_valid x0) x1 p q
      → Cong
          (word_modulus m)
          (valid_sum K (with_valid p valid) j + valid_sum K (with_valid q valid) j)
          (valid_sum K (with_valid (xor_list ns x0 x1) valid) j)
  totals-Cong K ns [] [] [] [] valid j h = cong_of_eq (word_modulus m) refl
  totals-Cong K ns (row0 ∷ x0) (row1 ∷ x1) (s ∷ p) (r ∷ q) [] j h = cong_of_eq (word_modulus m) refl
  totals-Cong K ns (row0 ∷ x0) (row1 ∷ x1) (s ∷ p) (r ∷ q) (true ∷ valid) j h =
      cong_of_eq (word_modulus m) (omega arith)
      ▸ add-Cong (place-Cong ns row0 row1 s r j h.0) (totals-Cong K ns x0 x1 p q valid j h.1)
  totals-Cong K ns (row0 ∷ x0) (row1 ∷ x1) (s ∷ p) (r ∷ q) (false ∷ valid) j h =
      cong_of_eq (word_modulus m) (omega arith)
      ▸ totals-Cong K ns x0 x1 p q valid j h.1
      ▸ cong_of_eq (word_modulus m) (omega arith)
  totals-Cong K ns x0 x1 p q valid j h = absurd h

pub valid_rows-xor_list :
    (K : Field) (m : ℕ) (ns : List ℕ) (x0 x1 p q : List (List ℕ)) (valid : List Bool)
    → AllConverted m ns (all_valid x0) x1 p q
    → valid_rows K (with_valid p valid) ≡ valid_rows K (with_valid (xor_list ns x0 x1) valid)
valid_rows-xor_list K m ns [] [] [] [] valid h = refl
valid_rows-xor_list K m ns (row0 ∷ x0) (row1 ∷ x1) (s ∷ p) (r ∷ q) [] h = refl
valid_rows-xor_list K m ns (row0 ∷ x0) (row1 ∷ x1) (s ∷ p) (r ∷ q) (v ∷ valid) h =
    ap (λ (t : ℕ). bit v + t) (valid_rows-xor_list K m ns x0 x1 p q valid h.1)
valid_rows-xor_list K m ns x0 x1 p q valid h = absurd h

-- The sums of the two servers, place by place.
pub add_arrays-Cong :
    (K : Field) (b a : List ℕ) (j : ℕ)
    → length b ≡ length a
    → Cong K.modulus (get_or (add_arrays K b a) j 0) (get_or a j 0 + get_or b j 0)
add_arrays-Cong K [] [] j h = cong_of_eq K.modulus refl
add_arrays-Cong K [] (x ∷ a) j h = absurd (omega arith)
add_arrays-Cong K (y ∷ b) [] j h = absurd (omega arith)
add_arrays-Cong K (y ∷ b) (x ∷ a) zero h = add_mod-Cong K y x ▸ cong_of_eq K.modulus (omega arith)
add_arrays-Cong K (y ∷ b) (x ∷ a) (suc j) h = add_arrays-Cong K b a j (omega arith)

pub add_arrays-lt : (K : Field) (b a : List ℕ) (j : ℕ) → get_or (add_arrays K b a) j 0 < K.modulus
add_arrays-lt K [] a j = K.modulus_pos
add_arrays-lt K (y ∷ b) [] j = K.modulus_pos
add_arrays-lt K (y ∷ b) (x ∷ a) zero = rw (add_mod_lem K y x) (mod-lt _ K.modulus_pos)
add_arrays-lt K (y ∷ b) (x ∷ a) (suc j) = add_arrays-lt K b a j

pub word_modulus-modulus : (K : Field) → word_modulus K.modulus ≡ K.modulus
word_modulus-modulus K = let pos = K.modulus_pos in ground arith

module _ (K : Field) where
  -- What the two servers accumulate over the valid rows.
  pub accumulate-converted :
      (ns : List ℕ) (x0 x1 p q : List (List ℕ)) (valid : List Bool)
      → AllConverted K.modulus ns (all_valid x0) x1 p q
      → (let a = accumulate K (length ns) (with_valid p valid) in
          let b = accumulate K (length ns) (with_valid q valid) in
          let rows = with_valid (xor_list ns x0 x1) valid in
          (a.0 ≡ valid_rows K rows)
          × (length a.1 ≡ length b.1)
          × ((j : ℕ) → Cong K.modulus (get_or a.1 j 0 + get_or b.1 j 0) (valid_sum K rows j)))
  accumulate-converted ns x0 x1 p q valid h =
      let rows = converted-AreRows K.modulus ns x0 x1 p q h in
      let in_p = HaveLength-with_valid K (length ns) p valid rows.sent in
      let in_q = HaveLength-with_valid K (length ns) q valid rows.got in
      (
        (accumulate-Cong K (length ns) (with_valid p valid) 0 in_p).0
            ∙ valid_rows-xor_list K K.modulus ns x0 x1 p q valid h,
        length-accumulate K (length ns) (with_valid p valid) in_p
            ∙ sym (length-accumulate K (length ns) (with_valid q valid) in_q),
        λ j.
            let total_j = totals-Cong K.modulus K ns x0 x1 p q valid j h in
            add-Cong (accumulate-Cong K (length ns) (with_valid p valid) j in_p).1
              (accumulate-Cong K (length ns) (with_valid q valid) j in_q).1
            ▸ (rw (word_modulus-modulus K) at total_j),
      )
