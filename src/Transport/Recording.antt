-- ===== src/Transport/Recording.antt =====
-- src/transport/recording.cpp: the file that holds the messages of several topics.
pub mod Bytes
pub mod Laws
pub mod Types
pub mod Writer
pub mod Reader
pub mod Entries
pub mod Framing
pub mod Decoding
pub mod ReadAll
pub mod Reading
pub mod Opening
pub mod Session
pub mod Streams
pub mod Recorded
pub mod Written
pub mod Parameters
pub mod Calls
pub mod Cutting
pub mod RoundTrip
mod Tests
