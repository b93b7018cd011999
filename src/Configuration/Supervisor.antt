-- ===== src/Configuration/Supervisor.antt =====
-- include/puppet_master/configuration/supervisor.h and src/configuration/supervisor.cpp, Supervisor.
-- The processes are the system's: a node's child is its number, and what a launch, a poll and the clock
-- give is an argument. Time points are nanoseconds.
pub mod State
pub mod Policy
pub mod Running
pub mod Pacing
pub mod Ending
pub mod Launches
pub mod Watching
pub mod Invariant
pub mod Stopping
mod Tests
