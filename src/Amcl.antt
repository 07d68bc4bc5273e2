-- ===== src/Amcl.antt =====
-- Monte Carlo localisation, nav2_amcl.
pub mod KdTree
pub mod Filter
