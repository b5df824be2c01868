-- ===== src/Worker/Lifecycle.antt =====
-- worker/processing/lifecycle.py: step results and failures in the deployment, its build and events.
mod Push
mod Preflight
mod Status
unfoldable pub use Push.*
unfoldable pub use Preflight.*
unfoldable pub use Status.*
