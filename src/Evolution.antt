-- ===== src/Evolution.antt =====
-- How the database may change while workers, reconcilers and the API run: what a row keeps, where
-- its status may go, and that the log of events only grows.
pub mod Rows
pub mod Database
pub mod Session
pub mod Reading
pub mod Identity
pub mod Claims
pub mod Transitions
pub mod Commands
pub mod Lifecycle
pub mod Stages
pub mod Pipeline
pub mod Reconciliation
pub mod Fake
