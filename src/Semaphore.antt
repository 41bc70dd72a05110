-- ===== src/Semaphore.antt =====
-- src/shared_memory/semaphore.hpp: the semaphore that processes lock and unlock, on both systems.
pub mod Mutex
pub mod Win32
pub mod Linux
