-- ===== src/Disk.antt =====
-- library/filesystem/src/device: block devices.
pub mod Block
pub mod Memory
pub mod Transfer
pub mod Mbr
mod Tests
