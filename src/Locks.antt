-- ===== src/Locks.antt =====
-- library/async_locks: the asynchronous locks.
pub mod Semaphore
pub mod Guarded
pub mod Locked
pub mod Mutex
pub mod RwLock
pub mod Spsc
mod Tests
mod SpscTests
