-- ===== src/Runtime.antt =====
-- include/puppet_master/runtime and src/runtime.
pub mod Component
