-- ===== src/Ot/LazyTriples.antt =====
-- The triple that server 0 makes for both.
use prio_plus.Base.{ℕ, ◌+◌, ◌*◌, Cong, ◌▸◌, cong_of_eq, arith, ◌∙◌}
use mathlib.Core.Path.{ap₂}
use prio_plus.Field.{Field, sub_mod-Cong}
use prio_plus.Ot.{generate_beaver_triple_lazy}

-- The two triples of `generate_beaver_triple_lazy` are shares of a product, whatever is drawn.
pub generate_beaver_triple_lazy-Cong :
    (K : Field) (a b c other_a other_b : ℕ)
    → (let t = generate_beaver_triple_lazy K a b c other_a other_b in
        Cong K.modulus (t.0.c + t.1.c) ((t.0.a + t.1.a) * (t.0.b + t.1.b)))
unfolding generate_beaver_triple_lazy
generate_beaver_triple_lazy-Cong K a b c other_a other_b =
    cong_of_eq K.modulus (omega arith)
    ▸ sub_mod-Cong K _ c
    ▸ cong_of_eq K.modulus
        (K.fmpz_mul_lem _ _ ∙ ap₂ ◌*◌ (K.fmpz_add_lem a other_a) (K.fmpz_add_lem b other_b))
