-- ===== src/Network/Batch.antt =====
-- What is received is what was sent.
use prio_plus.Base.{
  ℕ, zero, suc, ◌+◌, ◌*◌, ◌/◌, ◌%◌, ◌^◌, ◌<◌, ◌≤◌, ◌≡◌, ◌≢◌, refl, ap, ◌∙◌, sym, Bool, true, false,
  List, [], ◌∷◌, length, bit, update, update_self, update_ne, xor_value, ◌==◌, ==_iff, arith, u64,
  Bool-cases, inl, inr,
}
use native.Mathlib.Nat.{pow-suc, div-div-eq-div-mul, div-one, mod-lt, zero-div}
use prio_plus.Network.{
  swap32, swap64, send_size, recv_size, send_uint64, recv_uint64, pack_loop, unpack_loop,
  send_bool_batch, recv_bool_batch,
}

swap32_twice : (x : ℕ) → x < 2 ^ 32 → swap32 (swap32 x) ≡ x
unfolding swap32
swap32_twice x h = omega arith

swap32-lt : (x : ℕ) → swap32 x < 2 ^ 32
unfolding swap32
swap32-lt x = omega arith

halve : (a k : ℕ) → a / 2 ^ suc k ≡ a / 2 / 2 ^ k
halve a k = rw (pow-suc 2 k) (ap (λ t. a / t) (omega arith) ∙ sym (div-div-eq-div-mul a 2 (2 ^ k)))

xor-digit :
    (n k a b : ℕ) → k < n → xor_value n a b / 2 ^ k % 2 ≡ (a / 2 ^ k % 2 + b / 2 ^ k % 2) % 2
unfolding xor_value
xor-digit zero k a b h = absurd (omega arith)
xor-digit (suc n) zero a b h = rw (div-one _, div-one a, div-one b) (omega arith)
xor-digit (suc n) (suc k) a b h =
    let x = xor_value n (a / 2) (b / 2) in
    let e : ((a + b) % 2 + 2 * x) / 2 ≡ x = omega arith in
    rw (halve _ k, halve a k, halve b k, e) (xor-digit n k (a / 2) (b / 2) (omega arith))

power-digit : (l k : ℕ) → 2 ^ l / 2 ^ k % 2 ≡ bit (k == l)
power-digit zero zero = refl
power-digit (suc l) zero = rw (pow-suc 2 l, div-one _) (ground arith)
power-digit zero (suc k) = rw (halve 1 k, zero-div (2 ^ k)) (ground arith)
power-digit (suc l) (suc k) =
    let e : 2 ^ l * 2 / 2 ≡ 2 ^ l = omega arith in
    let same : bit (suc k == suc l) ≡ bit (k == l) = ground arith in
    rw (halve (2 ^ suc l) k, pow-suc 2 l, e, same) (power-digit l k)

-- Bit `j` of a buffer.
abbrev bit_at : (ℕ → ℕ) → ℕ → ℕ
bit_at buf j = buf (j / 8) / 2 ^ (j % 8) % 2

-- The buffer after bit `i` was changed.
abbrev changed : (ℕ → ℕ) → ℕ → ℕ → ℕ
changed buf i = update buf (i / 8) (xor_value 8 (buf (i / 8)) (2 ^ (i % 8)))

changed-digit :
    (buf : ℕ → ℕ) (i j : ℕ)
    → i / 8 ≡ j / 8
    → bit_at (changed buf i) j ≡ (bit_at buf j + bit (j % 8 == i % 8)) % 2
changed-digit buf i j e =
    rw
      (
        e,
        update_self buf (j / 8) (xor_value 8 (buf (j / 8)) (2 ^ (i % 8))),
        xor-digit 8 (j % 8) (buf (j / 8)) (2 ^ (i % 8)) (omega arith),
        power-digit (i % 8) (j % 8),
      )
      refl

changed-other : (buf : ℕ → ℕ) (i j : ℕ) → i ≢ j → bit_at (changed buf i) j ≡ bit_at buf j
changed-other buf i j ne = elim (Bool-cases (i / 8 == j / 8)) [
  | inl e ↦
      let same = (==_iff (i / 8) (j / 8)).0 e in
      let other : bit (j % 8 == i % 8) ≡ 0 = ground arith in
      changed-digit buf i j same ∙ rw other (omega arith)
  | inr e ↦
      let u : changed buf i (j / 8) ≡ buf (j / 8) =
        update_ne buf (i / 8) _ (j / 8) (ground arith) in
      ap (λ b. b / 2 ^ (j % 8) % 2) u
]

changed_self : (buf : ℕ → ℕ) (i : ℕ) → bit_at buf i ≡ 0 → bit_at (changed buf i) i ≡ 1
changed_self buf i clear =
    let same : (i % 8 == i % 8) ≡ true = (==_iff (i % 8) (i % 8)).1 refl in
    changed-digit buf i i refl ∙ rw (same, clear) refl

-- Later bits leave a bit as it is.
pack_loop-keeps :
    (xs : List Bool) (i j : ℕ) (buf : ℕ → ℕ) → j < i → bit_at (pack_loop xs i buf) j ≡ bit_at buf j
unfolding pack_loop
pack_loop-keeps [] i j buf h = refl
pack_loop-keeps (true ∷ xs) i j buf h =
    pack_loop-keeps xs (suc i) j (changed buf i) (omega arith) ∙ changed-other buf i j (omega arith)
pack_loop-keeps (false ∷ xs) i j buf h = pack_loop-keeps xs (suc i) j buf (omega arith)

unpack-pack :
    (xs : List Bool) (i : ℕ) (buf : ℕ → ℕ)
    → ((j : ℕ) → i ≤ j → bit_at buf j ≡ 0)
    → unpack_loop (length xs) i (pack_loop xs i buf) ≡ xs
unfolding pack_loop unpack_loop
unpack-pack [] i buf clear = refl
unpack-pack (true ∷ xs) i buf clear =
    rw
      (pack_loop-keeps xs (suc i) i (changed buf i) (omega arith)
        ∙ changed_self buf i (clear i (omega arith)))
      (ap (λ l. true ∷ l)
        (unpack-pack xs (suc i) (changed buf i)
          λ j h. changed-other buf i j (omega arith) ∙ clear j (omega arith)))
unpack-pack (false ∷ xs) i buf clear =
    rw (pack_loop-keeps xs (suc i) i buf (omega arith) ∙ clear i (omega arith))
      (ap (λ l. false ∷ l) (unpack-pack xs (suc i) buf λ j h. clear j (omega arith)))

-- `recv_bool_batch` recovers the bits that `send_bool_batch` packed into bytes, for any number of
-- bits.
pub recv_bool_batch-send_bool_batch :
    (xs : List Bool) → recv_bool_batch (length xs) (send_bool_batch xs) ≡ xs
unfolding recv_bool_batch send_bool_batch
recv_bool_batch-send_bool_batch xs = unpack-pack xs 0 (λ j. 0) λ j h. zero_bit (j % 8)
  where
    zero_bit : (k : ℕ) → 0 / 2 ^ k % 2 ≡ 0
    zero_bit k = rw (zero-div (2 ^ k)) refl

swap32-mod : (x : ℕ) → swap32 x ≡ swap32 (x % 2 ^ 32)
unfolding swap32
swap32-mod x = omega arith

-- `recv_size` gets what `send_size` was given modulo 2 ^ 32, since `htonl` takes 32 bits of the
-- 64-bit size.
pub recv_size-send_size : (x : ℕ) → recv_size (send_size x) ≡ x % 2 ^ 32
unfolding send_size recv_size
recv_size-send_size x =
    ap swap32 (swap32-mod x) ∙ swap32_twice (x % 2 ^ 32) (mod-lt x (omega arith))

-- `recv_uint64` gets the word that `send_uint64` was given.
pub recv_uint64-send_uint64 : (x : ℕ) → x < u64 → recv_uint64 (send_uint64 x) ≡ x
unfolding send_uint64 recv_uint64 swap64
recv_uint64-send_uint64 x h =
    let lo = x % 2 ^ 32 in
    let hi = x / 2 ^ 32 in
    let low : (swap32 lo * 2 ^ 32 + swap32 hi) % 2 ^ 32 ≡ swap32 hi = omega (arith, swap32-lt hi) in
    let high : (swap32 lo * 2 ^ 32 + swap32 hi) / 2 ^ 32 ≡ swap32 lo =
      omega (arith, swap32-lt hi) in
    rw (low, high, swap32_twice lo (omega arith), swap32_twice hi (omega arith)) (omega arith)
