-- ===== src/Transport/Shm.antt =====
-- src/transport/shm: topics in shared memory.
pub mod Layout
pub mod Ring
pub mod Seqlock
mod Tests
