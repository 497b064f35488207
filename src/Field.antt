-- ===== src/Field.antt =====
-- The field of the shares: FLINT's integers (`fmpz_t`) modulo `Int_Modulus` (constants.h).
-- FLINT is not part of the repository, so its functions are the fields of a record, with their
-- documented behaviour as laws. Every value that the program stores is at least zero; the one
-- place for a negative number is between `fmpz_sub` (or `fmpz_neg`) and the `fmpz_mod` that
-- follows it, and so these two calls are one function here.
mod Laws
pub use Laws.*
unfoldable pub use Laws.{add_mod, mul_mod, sub_mod}
pub mod Native
