-- ===== src/Acme.antt =====
-- The ACME server (core/acmeserver): the nonces of its requests.
pub mod Base64
pub mod Nonce
