-- ===== src/Topology.antt =====
-- semantics/topology_interpretation.py: reachability over the topology edges of the full graph.
pub mod Facts
pub mod Search
pub mod Build
mod Tests
