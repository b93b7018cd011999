-- ===== src/Service.antt =====
-- include/puppet_master/service and src/service.
pub mod Spec
pub mod Envelope
pub mod Endpoints
pub mod Client
pub mod Server
mod Tests
