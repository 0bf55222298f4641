-- ===== src/Led.antt =====
-- tools/permit_*.py: the signed permits of the UNO R4 LED bench, from the operator's authorizer
-- over the untrusted relay to the board.
pub mod Protocol
pub mod Authorizer
pub mod Link
