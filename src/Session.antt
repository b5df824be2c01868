-- ===== src/Session.antt =====
-- The database session and what can interrupt a worker: the setting in which the code of worker/
-- and control_plane/ runs.
mod State
mod Actions
mod Access
pub mod Keeps
unfoldable pub use State.*
unfoldable pub use Actions.*
unfoldable pub use Access.*
