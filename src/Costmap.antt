-- ===== src/Costmap.antt =====
-- The grid of costs of navigation2/nav2_costmap_2d and the layers that write to it.
pub mod Buffer
pub mod Doubles
pub mod Messages
pub mod Numbers
pub mod Footprint
pub mod Grid
pub mod Raytrace
pub mod Static
pub mod Layered
pub mod Inflation
pub mod Polygon
pub mod Layer
pub mod Extent
