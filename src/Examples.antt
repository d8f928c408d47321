-- ===== src/Examples.antt =====
-- Concrete objects, a concrete API server, and the theorems at them.
pub mod World
pub mod Text
pub mod Controllers
pub mod Admission
pub mod Events
pub mod Monitor
pub mod Updates
pub mod Volumes
pub mod Startup
pub mod Mutator
pub mod Disks
pub mod Nodes
