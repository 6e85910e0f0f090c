-- ===== src/Services.antt =====
-- pkg/services: the services that the manager can be given.
pub mod Dummy
pub mod Glimesh
mod Runs
