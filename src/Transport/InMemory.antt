-- ===== src/Transport/InMemory.antt =====
-- src/transport/inmemory/inmemory_transport.cpp: topics inside one process.
pub mod Mailbox
pub mod Channel
pub mod Topics
mod Tests
