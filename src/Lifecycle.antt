-- ===== src/Lifecycle.antt =====
-- Bring-up and shutdown of the managed nodes: navigation2/nav2_lifecycle_manager.
pub mod Manager
