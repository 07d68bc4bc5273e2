-- ===== src/Lib.antt =====
-- The verification library of the navigation stack under navigation2/.
--
-- The program and its parts. The stack is a set of nodes that a lifecycle manager brings up and down
-- together; a behavior tree drives them through action servers; a controller scores trajectories over
-- a grid of costs. Modelled here are the parts of that with the most logic of their own:
-- - BehaviorTree: `RecoveryNode` of navigation2/nav2_behavior_tree/src/recovery_node.cpp. Its two
--   children are functions on a world. Recovery.antt has the node, Attempts the bounded alternation of
--   the two children that it implements, Refinement, Settling and Bounds what is proved of it.
-- - ActionServer: `SimpleActionServer` of
--   navigation2/nav2_util/include/nav2_util/simple_action_server.hpp. Goal handles are a parameter
--   (Handles); the detached execute threads are counted. Slots and Ending follow each method, Coverage
--   and Races the interleavings: one mutex guards every method that changes the state, so an
--   interleaving is a sequence; `publish_feedback`, which takes no lock, only reads.
-- - Lifecycle: `LifecycleManager` of navigation2/nav2_lifecycle_manager/src/lifecycle_manager.cpp. The
--   service clients are a parameter with laws (Manager/Clients); a call through a null client is an
--   outcome of its own. Sweep is about one pass over the nodes, Commands and Shutdown about the commands.
-- - Costmap: `Costmap2D` of navigation2/nav2_costmap_2d/src/costmap_2d.cpp and its header, in
--   Grid; Buffer has the arrays with memset and memcpy, where an access out of bounds is a fault;
--   Doubles the floating-point operations, a parameter. Layer and Extent are `CostmapLayer` of
--   src/costmap_layer.cpp there: the four ways to merge a layer, and the boxes that bound an
--   update. Raytrace and Polygon are the walk along a line and the polygons of `Costmap2D`.
--   Layered is `LayeredCostmap` of src/layered_costmap.cpp, over layers given by their virtual
--   methods; Static is `StaticLayer` of plugins/static_layer.cpp, which Static/Composes makes one
--   of these layers, Messages what it reads. Inflation is `InflationLayer` of
--   plugins/inflation_layer.cpp: Push, Visit and Spread follow a cell through its bins, Tables has the
--   cached distances and costs. Footprint is the parser of footprints in
--   src/array_parser.cpp and src/footprint.cpp.
-- - MapServer: of navigation2/nav2_map_server, the pixels that src/map_saver.cpp writes and the cells
--   that src/occ_grid_loader.cpp reads from them; Configure the saver's parameters, Checks what its
--   constructor accepts. Rows has the loops, Reload a map that is saved and loaded again.
-- - Critics: of navigation2/nav2_dwb_controller/dwb_critics, the iterator over the cells of a line
--   (LineIterator, with Path its places and Range that no `int` of it overflows), the critic of oscillating commands (Oscillation) and those of obstacles (Obstacle),
--   which walk the iterator over the costmap. Raytrace compares the iterator with
--   the costmap's own walk. MapGrid scores the cells of the grid by draining the queue of cells.
-- - Queue: of navigation2/nav2_dwb_controller/costmap_queue, the priority queue in bins (Bins), against
--   a sorted list, and the expansion of cells over the grid that is built on it (Cells).
-- - Amcl: of navigation2/nav2_amcl/src/pf, the histogram of poses in pf_kdtree.c (KdTree) and the
--   particle filter of pf.c that fills it (Filter). In KdTree, Pivot, Lookup and Histogram are about
--   insertion and search, and Cluster about the labels of connected bins: Places ties the tree to the
--   array of its nodes, Visit and Recursion are the recursion over neighbours, Queue and Components the
--   loops around it, Samples the tree as the filter uses it. In Filter, Stats are the cluster
--   statistics, Resample the loops that draw samples and Sensor the weighing; Draws, Tally, Ready and
--   Sizes follow each call, Reach any sequence of them. Doubles and generators are parameters.
-- Prelude has what the parts share: native numbers with their Boolean tests, lists, and integers.
--
-- Numbers. `unsigned int` and `unsigned char` wrap (u32, u8). `int` is an integer; where overflow would
-- be undefined, the step is a fault (the line iterator) or the theorems name the range, but for the
-- keys of the particle filter's tree, whose sums and differences are taken to be `int`s. The values of fresh arrays are an argument. Doubles are
-- abstract, and what is relied on of them is a hypothesis; the map server's shades and thresholds are
-- exact fractions instead, levels in 255ths and thresholds in hundredths.
--
-- Fuel. `RecoveryNode::tick` gets two rounds for each retry and one more, the walk along a line two
-- rounds more than the line has steps, the sort of a polygon's outline the square of its cells and one
-- more, the parser of footprints a round more than its characters, the propagation of scores a round
-- more than the grid has cells, the inflation nine rounds for each cell of the grid, one for each
-- obstacle and one more, and the labelling of clusters as many nested calls as the tree has leaves and
-- one more. The lemmas on each loop derive its result from this fuel, so none runs out. All other loops
-- run over a list or a count.
--
-- Not modelled: the middleware (nodes, parameters, messages, transforms, threads), logging, mutexes,
-- `saveMap`, the obstacle and voxel layers, the voxel grid, the nodes, motion and sensor models around
-- the particle filter, the planners and trajectory generators, the image and YAML libraries behind the
-- map server, launch files and user interfaces. The directory navigation/ holds the makefiles of an old
-- build.
pub mod Prelude
pub mod BehaviorTree
pub mod ActionServer
pub mod Lifecycle
pub mod Costmap
pub mod Critics
pub mod MapServer
pub mod Queue
pub mod Amcl
