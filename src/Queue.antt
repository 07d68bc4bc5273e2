-- ===== src/Queue.antt =====
-- The priority queue of navigation2/nav2_dwb_controller/costmap_queue.
pub mod Order
pub mod Bins
pub mod Cells
