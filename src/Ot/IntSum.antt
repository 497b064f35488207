-- ===== src/Ot/IntSum.antt =====
-- The conversion of integers, shared by exclusive or of their bits, into sums modulo `mod`.
pub mod Step
pub mod Value
pub mod Shares
