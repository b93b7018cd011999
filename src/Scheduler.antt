-- ===== src/Scheduler.antt =====
-- src/scheduler/scheduler.cpp.
pub mod Spec
pub mod State
pub mod Triggers
pub mod Dispatch
pub mod Graph
pub mod Install
pub mod Lifecycle
pub mod Startup
pub mod System
pub mod Samples
mod Tests
pub mod Selection
pub mod Aging
pub mod Growth
pub mod Sameness
pub mod Invariant
pub mod Lookups
