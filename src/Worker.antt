-- ===== src/Worker.antt =====
-- worker/: the background worker that runs deployments and commands.
pub mod Events
pub mod Claims
pub mod Executor
pub mod Lifecycle
pub mod Pipeline
pub mod Helm
pub mod Commands
pub mod Contracts
pub mod Reconciliation
pub mod Workload
pub mod Fake
pub mod WorkItems
