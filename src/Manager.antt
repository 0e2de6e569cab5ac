-- ===== src/Manager.antt =====
-- manager.go
pub mod New
pub mod State
pub mod Enqueue
pub mod Lifecycle
pub mod Shutdown
pub mod Handlers
pub mod Waking
