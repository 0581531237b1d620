-- ===== src/Controllers.antt =====
-- The controllers of pkg/controllers.
pub mod NodeProviderId
pub mod NodeAdoption
pub mod NodeConfig
pub mod BatchResume
pub mod RafayNodeClass
pub mod Headroom
pub mod Fleet
