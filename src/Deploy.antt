-- ===== src/Deploy.antt =====
-- The deployment queue: its rows and its operations (core/store).
pub mod Job
pub mod Queue
pub mod Rollout
pub mod Agent
