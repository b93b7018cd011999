-- ===== src/Configuration.antt =====
-- src/configuration: the nodes of a system and their supervision.
pub mod Manifest
pub mod Supervisor
