-- ===== src/Renewal.antt =====
-- The renewal queue: its rows (core/store), the pacing and the workers (core/engine/renewal).
pub mod Job
pub mod Store
pub mod Certificate
pub mod Pacing
pub mod Worker
pub mod Lead
pub mod Scheduler
