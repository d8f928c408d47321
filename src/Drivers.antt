-- ===== src/Drivers.antt =====
-- pkg/drivers and drivers/: the host of the driver modules and the two drivers of the repository.
pub mod Program
pub mod StorageOs
pub mod Ebs
pub mod Host
pub mod Verdict
