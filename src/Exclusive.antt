-- ===== src/Exclusive.antt =====
-- Workers that compete for a deployment (worker/processing/claims.py): what a claim leaves in the
-- database, and what the loss of a claim does to it.
pub mod Quiet
pub mod Claiming
pub mod Commands
pub mod Stale
pub mod Freed
pub mod Settled
