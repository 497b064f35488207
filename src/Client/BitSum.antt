-- ===== src/Client/BitSum.antt =====
-- Honest clients and the two servers together: the servers answer what the clients expect.
use prio_plus.Base.{
  ℕ, ◌+◌, ◌*◌, ◌%◌, ◌^◌, ◌<◌, ◌≤◌, ◌≡◌, refl, ap, ◌∙◌, sym, Bool, true, false, List, [], ◌∷◌, some,
  length, xor, bit, ◌==◌, ==_iff, ltb, arith, u64,
}
use mathlib.Core.List.{Perm}
use native.Mathlib.Nat.{mod-eq_of_lt}
use prio_plus.Ot.{Emp}
use prio_plus.Server.{Shares, ret_ans, find, on_found, bit_sum}
use prio_plus.Server.Collect.{IsNewKey, HaveOwnKeys, collect_shares-own}
use prio_plus.Server.Sums.{count_ones, count_shared, bit_sum_lem}
use prio_plus.Client.{BitRequest, bit_sum_helper}
use prio_plus.Client.Totals.{total, total-perm}

-- The keys that the clients draw are different.
abbrev pub DrawOwnKeys : List BitRequest → Type 0
DrawOwnKeys rs = HaveOwnKeys (bit_sum_helper rs 0).bitshare0

-- The number of requests whose real value is 1.
abbrev pub count_true : List BitRequest → ℕ
count_true [] = 0
count_true (r ∷ rs) = bit r.real_val + count_true rs

-- Server 0 has the share of every request.
AreFound : List BitRequest → Shares Bool → Type 0
AreFound [] m = Unit {0}
AreFound (r ∷ rs) m = (find r.pk m ≡ some r.share0) × AreFound rs m

self_test : (k : ℕ) → (k == k) ≡ true
self_test k = (==_iff k k).1 refl

AreFound-cons :
    (k : ℕ) (s : Bool) (rs : List BitRequest) (ans : ℕ) (m : Shares Bool)
    → IsNewKey k (bit_sum_helper rs ans).bitshare0
    → AreFound rs m
    → AreFound rs ((k, s) ∷ m)
unfolding AreFound bit_sum_helper
AreFound-cons k s [] ans m new h = tt
AreFound-cons k s (r ∷ rs) ans m new h = (rw new.0 h.0, AreFound-cons k s rs _ m new.1 h.1)

helper-AreFound :
    (rs : List BitRequest) (ans : ℕ)
    → HaveOwnKeys (bit_sum_helper rs ans).bitshare0
    → AreFound rs (bit_sum_helper rs ans).bitshare0
unfolding AreFound bit_sum_helper
helper-AreFound [] ans h = tt
helper-AreFound (r ∷ rs) ans h =
    (rw (self_test r.pk) refl, AreFound-cons r.pk r.share0 rs _ _ h.0 (helper-AreFound rs _ h.1))

-- The two lists have the same keys.
same-IsNewKey :
    (k : ℕ) (rs : List BitRequest) (ans : ℕ)
    → IsNewKey k (bit_sum_helper rs ans).bitshare0
    → IsNewKey k (bit_sum_helper rs ans).bitshare1
unfolding bit_sum_helper
same-IsNewKey k [] ans h = tt
same-IsNewKey k (r ∷ rs) ans h = (h.0, same-IsNewKey k rs _ h.1)

same-HaveOwnKeys :
    (rs : List BitRequest) (ans : ℕ)
    → HaveOwnKeys (bit_sum_helper rs ans).bitshare0
    → HaveOwnKeys (bit_sum_helper rs ans).bitshare1
unfolding bit_sum_helper
same-HaveOwnKeys [] ans h = tt
same-HaveOwnKeys (r ∷ rs) ans h = (same-IsNewKey r.pk rs _ h.0, same-HaveOwnKeys rs _ h.1)

xor_cancel : (s v : Bool) → xor s (xor s v) ≡ v
unfolding xor
xor_cancel true true = refl
xor_cancel true false = refl
xor_cancel false true = refl
xor_cancel false false = refl

counts :
    (rs : List BitRequest) (ans : ℕ) (m : Shares Bool)
    → AreFound rs m
    → (count_ones (bit_sum_helper rs ans).bitshare1 m ≡ count_true rs)
      × (count_shared (bit_sum_helper rs ans).bitshare1 m ≡ length rs)
unfolding AreFound bit_sum_helper
counts [] ans m h = (refl, refl)
counts (r ∷ rs) ans m h =
    let ih = counts rs ((ans + bit r.real_val) % 2 ^ 32) m h.1 in
    (rw (h.0, xor_cancel r.share0 r.real_val, ih.0) refl, rw (h.0, ih.1) (omega arith))

bit-le : (b : Bool) → bit b ≤ 1
bit-le true = omega arith
bit-le false = omega arith

helper-ans :
    (rs : List BitRequest) (ans : ℕ)
    → ans + length rs < 2 ^ 32
    → (bit_sum_helper rs ans).ans ≡ ans + count_true rs
unfolding bit_sum_helper
helper-ans [] ans h = omega arith
helper-ans (r ∷ rs) ans h =
    let le = bit-le r.real_val in
    let e : (ans + bit r.real_val) % 2 ^ 32 ≡ ans + bit r.real_val = omega (arith, le) in
    rw e (helper-ans rs (ans + bit r.real_val) (omega (arith, le)) ∙ omega arith)

count_true-le : (rs : List BitRequest) → count_true rs ≤ length rs
count_true-le [] = omega arith
count_true-le (r ∷ rs) = omega (arith, bit-le r.real_val, count_true-le rs)

abbrev one_of : Shares Bool → ℕ × Bool → ℕ
one_of m0 (k, t) = on_found (find k m0) 0 (λ s. bit (xor s t))

abbrev shared_of : Shares Bool → ℕ × Bool → ℕ
shared_of m0 (k, t) = on_found (find k m0) 0 (λ s. 1)

ones-total : (m m0 : Shares Bool) → count_ones m m0 ≡ total (one_of m0) m
ones-total [] m0 = refl
ones-total ((k, t) ∷ m) m0 = ap (λ n. one_of m0 (k, t) + n) (ones-total m m0)

shared-total : (m m0 : Shares Bool) → count_shared m m0 ≡ total (shared_of m0) m
shared-total [] m0 = refl
shared-total ((k, t) ∷ m) m0 = ap (λ n. shared_of m0 (k, t) + n) (shared-total m m0)

-- For fewer than 2 ^ 32 clients with different keys, and whatever the order in which server 1 goes
-- through its map, server 0 answers `bit_sum` with the number of the clients whose real value is
-- 1, which is also the answer that the clients' side expects.
pub bit_sum_of_clients :
    (E : Emp) (order : Shares Bool → Shares Bool) (draws : ℕ → ℕ) (rs : List BitRequest)
    → ((m : Shares Bool) → Perm (order m) m)
    → ((j : ℕ) → draws j < u64)
    → DrawOwnKeys rs
    → length rs < 2 ^ 32
    → (let out = bit_sum_helper rs 0 in
        (bit_sum E order draws (length rs) out.bitshare0 out.bitshare1 ≡ ret_ans (count_true rs))
        × (out.ans ≡ count_true rs))
bit_sum_of_clients E order draws rs perm small own few =
    let m0 = (bit_sum_helper rs 0).bitshare0 in
    let m1 = (bit_sum_helper rs 0).bitshare1 in
    let kept0 = collect_shares-own m0 own in
    let kept1 = collect_shares-own m1 (same-HaveOwnKeys rs 0 own) in
    let c = counts rs 0 m0 (helper-AreFound rs 0 own) in
    let ones : count_ones (order m1) m0 ≡ count_true rs =
      ones-total (order m1) m0
      ∙ total-perm (one_of m0) (order m1) m1 (perm m1)
      ∙ sym (ones-total m1 m0)
      ∙ c.0 in
    let shared : count_shared (order m1) m0 ≡ length rs =
      shared-total (order m1) m0
      ∙ total-perm (shared_of m0) (order m1) m1 (perm m1)
      ∙ sym (shared-total m1 m0)
      ∙ c.1 in
    let enough : ltb (2 * length rs) (length rs) ≡ false = ground arith in
    let word : count_true rs % u64 ≡ count_true rs =
      mod-eq_of_lt (omega (arith, count_true-le rs)) in
    (
      bit_sum_lem E order draws (length rs) m0 m1 small
          ∙ rw (kept0, kept1, ones, shared, enough, word) refl,
      helper-ans rs 0 (omega arith) ∙ omega arith,
    )
