-- ===== src/Utils.antt =====
-- pkg/utils, one module for each family of functions.
pub mod Hash
pub mod Names
pub mod Mount
pub mod Labels
pub mod Capacity
pub mod Semaphore
pub mod Decorate
pub mod Events
pub mod HostJobs
