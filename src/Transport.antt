-- ===== src/Transport.antt =====
-- The transports: what they carry, the one inside a process, and the one in shared memory.
pub mod Message
pub mod InMemory
pub mod Shm
pub mod Recording
pub mod Portable
