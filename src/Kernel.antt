-- ===== src/Kernel.antt =====
-- The parts of kernel/src that are modelled.
pub mod Keyboard
pub mod Vga
pub mod Physics
pub mod Frames
pub mod ElfLoader
mod Tests
mod MemoryTests
