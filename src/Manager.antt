-- ===== src/Manager.antt =====
-- internal/app/manager: the manager.
pub mod State
pub mod Cluster
pub mod Core
pub mod Api
pub mod Boot
pub mod System
