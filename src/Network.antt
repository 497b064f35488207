-- ===== src/Network.antt =====
-- net_share.cpp: the formats of numbers and of batches of bits. A message is the number, or the
-- array of bytes, that is sent; a sent number's own bytes arrive as they are. `htonl` and `ntohl`
-- swap the bytes, as on the little-endian machines that the macros distinguish.
pub mod Batch
use prio_plus.Base.{
  ℕ, zero, suc, ◌+◌, ◌*◌, ◌/◌, ◌%◌, ◌^◌, Bool, true, false, List, [], ◌∷◌, update, xor_value, ◌==◌,
  if◌then◌else◌,
}

-- `htonl` and `ntohl` take the low 32 bits.
unfoldable pub swap32 : ℕ → ℕ
swap32 x = x % 256 * 16777216 + x / 256 % 256 * 65536 + x / 65536 % 256 * 256 + x / 16777216 % 256

unfoldable pub send_size : ℕ → ℕ
unfolding swap32
send_size x = swap32 x

unfoldable pub recv_size : ℕ → ℕ
unfolding swap32
recv_size x = swap32 x

-- `htonll` and `ntohll`: the two halves have no common bits, so that `|` is `+`.
unfoldable pub swap64 : ℕ → ℕ
unfolding swap32
swap64 x = swap32 (x % 2 ^ 32) * 2 ^ 32 + swap32 (x / 2 ^ 32)

unfoldable pub send_uint64 : ℕ → ℕ
unfolding swap64
send_uint64 x = swap64 x

unfoldable pub recv_uint64 : ℕ → ℕ
unfolding swap64
recv_uint64 x = swap64 x

-- The loop of `send_bool_batch`, from bit `i` on.
unfoldable pub pack_loop : List Bool → (i : ℕ) (buf : ℕ → ℕ) → ℕ → ℕ
pack_loop [] i buf = buf
pack_loop (x ∷ xs) i buf =
    pack_loop xs (suc i)
      (if x then update buf (i / 8) (xor_value 8 (buf (i / 8)) (2 ^ (i % 8))) else buf)

unfoldable pub send_bool_batch : List Bool → ℕ → ℕ
unfolding pack_loop
send_bool_batch xs = pack_loop xs 0 (λ j. 0)

-- The loop of `recv_bool_batch`.
unfoldable pub unpack_loop : (rounds i : ℕ) (buf : ℕ → ℕ) → List Bool
unpack_loop zero i buf = []
unpack_loop (suc rounds) i buf =
    (buf (i / 8) / 2 ^ (i % 8) % 2 == 1) ∷ unpack_loop rounds (suc i) buf

unfoldable pub recv_bool_batch : (n : ℕ) (buf : ℕ → ℕ) → List Bool
unfolding unpack_loop
recv_bool_batch n buf = unpack_loop n 0 buf
