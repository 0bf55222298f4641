-- ===== src/Permits.antt =====
-- ros/haetae_gate/controller_permits.py: permits for the exact action that the gate allowed. The
-- children follow the file: the clock of the accepted world, the digests of the two kinds of
-- action, the rearm test and the signer.
pub mod Clock
pub mod Digest
pub mod Rearm
pub mod Signer
