-- ===== src/Critics.antt =====
-- navigation2/nav2_dwb_controller/dwb_critics: the iterator over the cells of a line, and the critics
-- that reject trajectories.
pub mod LineIterator
pub mod MapGrid
pub mod Raytrace
pub mod Oscillation
pub mod Obstacle
