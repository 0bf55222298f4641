-- ===== src/Tests.antt =====
-- Instances of the theorems at concrete inputs, and evaluations of the modelled code.
pub mod Gateway
pub mod Gate
pub mod Permits
pub mod Signing
pub mod Digests
pub mod Signer
pub mod Led
pub mod Operator
pub mod Proposals
pub mod Link
pub mod Attempts
pub mod Bench
