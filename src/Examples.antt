-- ===== src/Examples.antt =====
-- Concrete runs: the parameters of the models, and small stores and shares, for the examples of the
-- theorems' use in the modules below this one.
mod Protocols
mod Clients
mod Servers
mod Proofs
mod Aggregates
mod Counts
mod Transforms
mod Packets
use prio_plus.Base.{
  xor, ℕ, zero, suc, ◌+◌, ◌*◌, ◌%◌, ◌<◌, ◌≡◌, refl, ap, Bool, true, false, List, [], ◌∷◌, length,
  replicate, length-replicate, u64, arith, Cong, Matched,
}
use native.Mathlib.Nat.{mod-lt}
use prio_plus.Field.Native.{small_field}
use prio_plus.Share.{BooleanBeaverTriple, DaBit}
use prio_plus.Share.DaBits.{InRange}
use prio_plus.Ot.{Emp, choose}
use prio_plus.Ot.BoolTriples.{IsBoolTriple}
use prio_plus.Correlated.{Store, Supply}
use prio_plus.Correlated.Queues.{AreHalves, SuppliesMatch, StoresMatch}

abbrev pub emp : Emp
emp = record {
  Block = ℕ × ℕ;
  make_block = λ h l. (h, l);
  low_word = λ b. b.1;
  transfer = choose;
  low_word_lem = λ h l. refl;
  transfer_lem = λ xs ys bs. refl;
}

abbrev pub draws : ℕ → ℕ
draws i = (3 + 5 * i) % 11

pub draws-lt : (i : ℕ) → draws i < u64
draws-lt i = omega (arith, mod-lt (3 + 5 * i) {m = 11} (omega arith))

abbrev triple0 : BooleanBeaverTriple
triple0 = record { a = true; b = true; c = false }

abbrev triple1 : BooleanBeaverTriple
triple1 = record { a = false; b = false; c = true }

abbrev dabit0 : DaBit
dabit0 = record { bp = 4; b2 = true }

abbrev dabit1 : DaBit
dabit1 = record { bp = 10; b2 = false }

abbrev pub supply0 : Supply
supply0 = record {
  bool_triples = λ n. replicate n triple0;
  dabits = λ n. replicate n dabit0;
  lazy_draws = λ n. replicate n (1, 3);
}

abbrev pub supply1 : Supply
supply1 = record {
  bool_triples = λ n. replicate n triple1;
  dabits = λ n. replicate n dabit1;
  lazy_draws = λ n. replicate n (1, 3);
}

replicate-Matched :
    {A : Type 0} (R : A → A → Type 0) (n : ℕ) (x y : A)
    → R x y
    → Matched R (replicate n x) (replicate n y)
replicate-Matched R zero x y r = tt
replicate-Matched R (suc n) x y r = (r, replicate-Matched R n x y r)

pub draws-InRange : (n : ℕ) → InRange small_field (replicate n (1, 3))
draws-InRange zero = tt
draws-InRange (suc n) = (omega arith, omega arith, draws-InRange n)

pub supply-SuppliesMatch : SuppliesMatch small_field supply0 supply1
unfolding xor
supply-SuppliesMatch = record {
  odd = refl;
  triples = λ n. replicate-Matched IsBoolTriple n triple0 triple1 refl;
  triple_count = λ n. length-replicate n triple0;
  dabits = λ n. replicate-Matched (AreHalves small_field) n dabit0 dabit1 record { same = refl };
  dabit_count = λ n. length-replicate n dabit0;
  same_draws = λ n. refl;
  draws_fit = draws-InRange;
  draw_count = λ n. length-replicate n (1, 3);
}

abbrev pub store : (server_num : ℕ) → Store
store server_num = record {
  batch_size = 2;
  server_num = server_num;
  lazy = true;
  dabit_store = [];
  btriple_store = [];
}

pub store-StoresMatch : StoresMatch small_field (store 0) (store 1)
store-StoresMatch = record {
  batch = refl;
  mode = refl;
  first = refl;
  second = refl;
  triples = tt;
  dabits = tt;
}
