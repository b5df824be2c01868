-- ===== src/Validation.antt =====
-- control_plane/application/projects/validation.py and control_plane/command_validation.py: what a
-- request's body may hold. Texts are ASCII, and a JSON number is a natural number.
pub mod Checks
pub mod Parts
pub mod Patterns
pub mod Fields
pub mod Repositories
pub mod Commands
pub mod Variables
pub mod Projects
pub mod Requests
pub mod Settings
