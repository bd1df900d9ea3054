-- ===== src/Graph.antt =====
-- The work graph: src/api/graph.
pub mod Region
pub mod Intervals
pub mod Coverage
pub mod Initialization
pub mod Simulation
pub mod Identity
pub mod Reason
pub mod Fragment
pub mod Hazards
pub mod CrossHazards
pub mod DataPath
pub mod Explicit
pub mod Growth
pub mod Preparation
pub mod Topology
