-- ===== src/Models.antt =====
-- control_plane/models: the rows that the control plane keeps, and their status machines.
pub mod DeploymentStatus
pub mod BuildStatus
pub mod Rows
pub mod Lifecycle
