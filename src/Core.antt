-- ===== src/Core.antt =====
-- include/puppet_master/core: the vocabulary of the other parts.
pub mod Status
pub mod Result
pub mod Policy
pub mod Names
pub mod Trigger
