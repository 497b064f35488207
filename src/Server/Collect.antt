-- ===== src/Server/Collect.antt =====
-- The loop that receives the clients' shares: which share a key gets.
use prio_plus.Base.{
  sym, false, Bool-cases, Option-cases, inl, inr, ==_iff, ℕ, ◌≡◌, refl, ◌∙◌, ap, Bool, [], ◌∷◌,
  ◌++◌, Option, none, some, ◌==◌, if◌then◌else◌,
}
use mathlib.Core.List.{append-nil, append_assoc}
use prio_plus.Server.{accept_all, Shares, find, is_found, collect_shares}

-- The first share of a key that is accepted.
abbrev pub first_accepted : {V : Type 0} (accept : V → Bool) → ℕ → Shares V → Option V
first_accepted accept k [] = none
first_accepted accept k ((pk, v) ∷ rest) =
    if k == pk
    then (if accept v then some v else first_accepted accept k rest)
    else first_accepted accept k rest

abbrev pub or_else : {V : Type 0} → Option V → Option V → Option V
or_else none other = other
or_else (some v) other = some v

find-append :
    {V : Type 0} (k : ℕ) (m n : Shares V) → find k (m ++ n) ≡ or_else (find k m) (find k n)
find-append k [] n = refl
find-append k ((pk, v) ∷ m) n = elim (Bool-cases (k == pk)) [
  | inl e ↦ rw e refl
  | inr e ↦ rw e (find-append k m n)
]

or_else_assoc : {V : Type 0} (x y z : Option V) → or_else (or_else x y) z ≡ or_else x (or_else y z)
or_else_assoc none y z = refl
or_else_assoc (some x) y z = refl

one_step :
    {V : Type 0} (k pk : ℕ) (v : V) (rest : Option V)
    → or_else (find k ((pk, v) ∷ [])) rest ≡ (if k == pk then some v else rest)
one_step k pk v rest = elim (Bool-cases (k == pk)) [ inl s ↦ rw s refl | inr s ↦ rw s refl ]

or_else-none : {V : Type 0} (x : Option V) → x ≡ or_else x none
or_else-none none = refl
or_else-none (some v) = refl

known_step :
    {V : Type 0} (accept : V → Bool) (k pk : ℕ) (v w : V) (m : Shares V) (rest : Option V)
    → find pk m ≡ some w
    → or_else (find k m) rest
      ≡ or_else (find k m) (if k == pk then (if accept v then some v else rest) else rest)
known_step accept k pk v w m rest e = elim (Bool-cases (k == pk)) [
  | inl s ↦ rw (s, (==_iff k pk).0 s, e) refl
  | inr s ↦ rw s refl
]

new_step :
    {V : Type 0} (accept : V → Bool) (k pk : ℕ) (v : V) (m : Shares V) (rest : Option V)
    → find pk m ≡ none
    → or_else
        (find k (if is_found (find pk m) then m else (if accept v then m ++ (pk, v) ∷ [] else m)))
        rest
      ≡ or_else (find k m) (if k == pk then (if accept v then some v else rest) else rest)
new_step accept k pk v m rest e = elim (Bool-cases (accept v)) [
  | inl t ↦
      rw
        (
          e,
          t,
          find-append k m ((pk, v) ∷ []),
          or_else_assoc (find k m) (find k ((pk, v) ∷ [])) rest,
        )
        (ap (or_else (find k m)) (one_step k pk v rest))
  | inr t ↦ elim (Bool-cases (k == pk)) [ inl s ↦ rw (e, t, s) refl | inr s ↦ rw (e, t, s) refl ]
]

-- A share that is dropped, because its key is known or it is refused, is no loss.
found_step :
    {V : Type 0} (accept : V → Bool) (k pk : ℕ) (v : V) (m : Shares V) (rest : Option V)
    → or_else
        (find k (if is_found (find pk m) then m else (if accept v then m ++ (pk, v) ∷ [] else m)))
        rest
      ≡ or_else (find k m) (if k == pk then (if accept v then some v else rest) else rest)
found_step accept k pk v m rest = elim (Option-cases (find pk m)) [
  | inl e ↦ new_step accept k pk v m rest e
  | inr (w, e) ↦ rw e (known_step accept k pk v w m rest e)
]

collect_shares-keeps :
    {V : Type 0} (accept : V → Bool) (k : ℕ) (inputs m : Shares V)
    → find k (collect_shares accept inputs m) ≡ or_else (find k m) (first_accepted accept k inputs)
unfolding collect_shares
collect_shares-keeps accept k [] m = or_else-none (find k m)
collect_shares-keeps accept k ((pk, v) ∷ rest) m =
    collect_shares-keeps accept k rest _ ∙ found_step accept k pk v m (first_accepted accept k rest)

-- After the loop, a key has the first share with that key which was accepted, whatever else was
-- received before it and after it; a key with no such share is unknown.
pub collect_shares-find :
    {V : Type 0} (accept : V → Bool) (k : ℕ) (inputs : Shares V)
    → find k (collect_shares accept inputs []) ≡ first_accepted accept k inputs
collect_shares-find accept k inputs = collect_shares-keeps accept k inputs []

abbrev pub IsNewKey : {V : Type 0} → ℕ → Shares V → Type 0
IsNewKey k [] = Unit {0}
IsNewKey k ((pk, v) ∷ m) = ((pk == k) ≡ false) × IsNewKey k m

-- No two entries have one key.
abbrev pub HaveOwnKeys : {V : Type 0} → Shares V → Type 0
HaveOwnKeys [] = Unit {0}
HaveOwnKeys ((k, v) ∷ m) = IsNewKey k m × HaveOwnKeys m

abbrev AreMissing : {V : Type 0} → Shares V → Shares V → Type 0
AreMissing [] m = Unit {0}
AreMissing ((k, v) ∷ xs) m = (find k m ≡ none) × AreMissing xs m

AreMissing-append :
    {V : Type 0} (k : ℕ) (v : V) (xs m : Shares V)
    → AreMissing xs m
    → IsNewKey k xs
    → AreMissing xs (m ++ (k, v) ∷ [])
AreMissing-append k v [] m h new = tt
AreMissing-append k v ((pk, w) ∷ xs) m h new =
    (rw (find-append pk m ((k, v) ∷ []), h.0, new.0) refl, AreMissing-append k v xs m h.1 new.1)

collect-append :
    {V : Type 0} (xs m : Shares V)
    → HaveOwnKeys xs
    → AreMissing xs m
    → collect_shares accept_all xs m ≡ m ++ xs
unfolding collect_shares
collect-append [] m own h = sym (append-nil m)
collect-append ((k, v) ∷ xs) m own h = rw h.0 (
    collect-append xs (m ++ (k, v) ∷ []) own.1 (AreMissing-append k v xs m h.1 own.0)
    ∙ append_assoc m ((k, v) ∷ []) xs)

all-missing : {V : Type 0} (xs : Shares V) → AreMissing xs []
all-missing [] = tt
all-missing (x ∷ xs) = (refl, all-missing xs)

-- Shares with keys of their own are all kept, in their order.
pub collect_shares-own :
    {V : Type 0} (xs : Shares V) → HaveOwnKeys xs → collect_shares accept_all xs [] ≡ xs
collect_shares-own xs own = collect-append xs [] own (all-missing xs)
