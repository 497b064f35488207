-- ===== src/Examples/Clients.antt =====
-- Runs of the clients with the servers, of the messages, and of the making of daBits.
use prio_plus.Base.{
  ◌%◌, ◌^◌, ℕ, ◌≡◌, refl, Bool, true, false, List, [], ◌∷◌, length, arith, Matched,
}
use mathlib.Core.List.{Perm}
use mathlib.Core.List.Permᴰ
use prio_plus.Field.Native.{thirteen_pos}
use prio_plus.Server.{Shares, bit_sum, ret_ans}
use prio_plus.Client.{BitRequest, bit_sum_helper}
use prio_plus.Client.BitSum.{DrawOwnKeys, count_true, bit_sum_of_clients}
use prio_plus.Network.{
  send_size, recv_size, send_uint64, recv_uint64, send_bool_batch, recv_bool_batch,
}
use prio_plus.Network.Batch.{
  recv_size-send_size, recv_bool_batch-send_bool_batch, recv_uint64-send_uint64,
}
use prio_plus.Correlated.{generate_dabit}
use prio_plus.Correlated.Generation.{HideBit, generate_dabit-Matched}
use prio_plus.Examples.{emp, draws, draws-lt}

abbrev requests : List BitRequest
requests =
    record { pk = 21; real_val = true; share0 = true }
    ∷ record { pk = 34; real_val = false; share0 = true }
    ∷ record { pk = 55; real_val = true; share0 = false }
    ∷ []

abbrev same_order : Shares Bool → Shares Bool
same_order m = m

same_order-perm : (m : Shares Bool) → Perm (same_order m) m
same_order-perm m = ∣ Permᴰ.refl m ∣₁

requests-DrawOwnKeys : DrawOwnKeys requests
unfolding bit_sum_helper
requests-DrawOwnKeys = ((refl, (refl, tt)), ((refl, tt), (tt, tt)))

bit_sum_of_clients_example :
    (bit_sum emp same_order draws
        (length requests)
        (bit_sum_helper requests 0).bitshare0
        (bit_sum_helper requests 0).bitshare1
      ≡ ret_ans (count_true requests))
    × ((bit_sum_helper requests 0).ans ≡ count_true requests)
bit_sum_of_clients_example =
    bit_sum_of_clients emp same_order draws requests same_order-perm draws-lt requests-DrawOwnKeys
      (omega arith)

abbrev nine_bits : List Bool
nine_bits = true ∷ false ∷ true ∷ true ∷ false ∷ false ∷ false ∷ true ∷ true ∷ []

recv_bool_batch_example : recv_bool_batch (length nine_bits) (send_bool_batch nine_bits) ≡ nine_bits
recv_bool_batch_example = recv_bool_batch-send_bool_batch nine_bits

recv_size_example : recv_size (send_size 4294967299) ≡ 4294967299 % 2 ^ 32
recv_size_example = recv_size-send_size 4294967299

recv_uint64_example : recv_uint64 (send_uint64 81985529216486895) ≡ 81985529216486895
recv_uint64_example = recv_uint64-send_uint64 81985529216486895 (omega arith)

abbrev random_bits : List (Bool × ℕ)
random_bits = (true, 20) ∷ (false, 5) ∷ (true, 12) ∷ []

abbrev other_bits : List Bool
other_bits = true ∷ true ∷ false ∷ []

generate_dabit_example :
    Matched
      (HideBit 13 thirteen_pos (omega arith))
      (generate_dabit emp 13 random_bits other_bits).0
      (generate_dabit emp 13 random_bits other_bits).1
generate_dabit_example =
    generate_dabit-Matched 13 thirteen_pos (omega arith) emp random_bits other_bits refl
