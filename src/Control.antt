-- ===== src/Control.antt =====
-- internal/app/control: the control program, which asks the manager's API.
pub mod Boot
pub mod Api
pub mod Remote
