-- ===== src/Lib.antt =====
-- Prio+: two servers that compute statistics of the clients' private values, which each client
-- splits into a share for each server.
--
-- The program's parts, and the files that model them:
--   * Field (Field/Laws, Field/Native): FLINT's integers modulo `Int_Modulus` of constants.h, as an
--     interface: FLINT is not part of the repository. `native_field` meets its laws.
--   * Share (share.h, share.cpp): `SplitShare`, Beaver triples, client packets, daBits and edaBits.
--   * Circuit (circuit.h): the circuits that a client's values must meet, `Eval` by the client and
--     `ImportWires` by a server. A `Gate*` is a place in the list of gates.
--   * Ot (ot.h, ot.cpp): sums of bits and of integers and Boolean triples by oblivious transfer, in
--     64-bit words whose wrap-around is written out. emp's transfer is the parameter `Emp`.
--   * Correlated (correlated.h, correlated.cpp): the queues of triples and daBits, and the protocols
--     that use them: products of shared bits, and the conversion of bits and integers. What the queues
--     are refilled with is a `Supply`; Correlated/Supplies makes it by the joint protocols.
--   * Snips (server.h, poly/poly_once.c, `validate_snips` of server.cpp): the check of a client's
--     proof, which uses Circuit and Share.
--   * Server (server.cpp): the collection of shares, `bit_sum`, `xor_op` (AND, OR), `max_op` (MAX,
--     MIN) and `accumulate`. `bit_sum` uses Ot. Server/Aggregate has `share_convert` and `var_op`,
--     which use Ot through Correlated, and Snips; Server/LinReg has `linreg_op`, Server/IntSum has
--     `int_sum`. Server/Freq has `freq_op` and Server/CountMin has `countMin_op`, which convert bits
--     by the stores of Correlated.
--   * Hash (hash.h, hash.cpp): `HashStore`, which Server/CountMin uses.
--   * Transform (poly/fft.c), with Transform/Roots (`init_roots` of constants.cpp): the transform by
--     which a client interpolates the polynomials of its proof, and its tables of roots of unity.
--   * Client (client.cpp): what the clients send for the bit sum and for the frequencies. It is what
--     Server collects. Client/Polynomials (client.h) has `share_polynomials`, which makes the packets
--     that Snips checks, by Transform.
--   * Network (net_share.cpp): the formats of bits, sizes and words in messages.
--   * Examples: concrete runs of the theorems.
--
-- How state and operations correspond to the code: a C++ structure is a record, a queue is a list, an
-- array is a list where loops go through it in order and a function of the index where they do not,
-- a map is a list of entries. A function that runs on both servers is one definition for each
-- server's part, and one that composes the two parts, where what one part sends is an argument of the
-- other. Random draws are arguments. Reading an empty queue or past an array's end has no
-- result, and neither has a loop that does not end.
--
-- Bounds and fuel: words are natural numbers with `% 2 ^ 64` or `% 2 ^ 32` written out. The loop of
-- `NextPowerOfTwo` has 33 rounds of fuel: a power of two below 2 ^ 32 takes at most 32 rounds. The
-- loop of `HashStore` over the bits of a word has 64: a word shifted down 64 times is 0. The calls of
-- `fft_recurse` nest 32 deep at most: each halves the number of points, an `int`.
-- Every other loop is a recursion on its list or on its count. The modulus is a parameter, of which
-- constants.h has one instance, 0x8000000000080001: it is above half of 2 ^ 64.
--
-- Not modelled: sockets, the formats of the other messages, timing output, memory management and
-- `fork`, which change no value; FLINT, emp and the standard library's random numbers, which are
-- parameters; he_triples, which calls a library that the servers no longer use; the floating-point
-- ends of `var_op`, `linreg_op` and `countMin_op`; the failure of a client's socket amid its packet;
-- the clients of the other operations, poly_batch of poly/, `addBinaryShares`, and `heavy_op` of
-- the server.
pub mod Base
pub mod Field
pub mod Share
pub mod Circuit
pub mod Ot
pub mod Correlated
pub mod Snips
pub mod Server
pub mod Client
pub mod Network
pub mod Hash
pub mod Transform
pub mod Examples
