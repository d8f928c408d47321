-- ===== src/Controllers.antt =====
-- controllers/, one module for each reconciler and for what it keeps.
pub mod Conditions
pub mod Outcome
pub mod Pvc
pub mod DiskConfigs
pub mod Nodes
pub mod Filters
pub mod Jobs
pub mod Monitor
pub mod Volumes
pub mod Resize
pub mod Waits
pub mod Create
pub mod Rounds
pub mod Loop
