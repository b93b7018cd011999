-- ===== src/Service/Client.antt =====
-- src/service/service.cpp: the fields of Client::Impl and its critical sections. Calls are named by
-- their numbers, and the callback of a call by a number of its own. The clock does not go back.
pub mod Presence
pub mod Calls
pub mod System
pub mod Totals
pub mod Balance
pub mod Kept
pub mod Once
pub mod Lost
pub mod Late
mod Tests
