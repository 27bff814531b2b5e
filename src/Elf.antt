-- ===== src/Elf.antt =====
-- library/elf and library/async_io: reading an executable and loading it.
pub mod Io
pub mod File
pub mod Header
pub mod Load
pub mod Tests
