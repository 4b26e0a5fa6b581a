-- ===== src/Audit.antt =====
-- The tamper-evident audit log: core/store/audit_chain.go, its store operations and the keyring.
pub mod Bytes
pub mod Keyring
pub mod Chain
