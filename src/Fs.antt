-- ===== src/Fs.antt =====
-- library/filesystem/src/fs: the FAT32 file system over a block device.
mod Tests
mod FileTests
mod MountTests
pub mod Types
pub mod Name
pub mod Table
pub mod Mount
pub mod Directory
pub mod System
