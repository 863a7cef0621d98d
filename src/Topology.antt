-- ===== src/Topology.antt =====
-- internal/topology: the graph of the calls between services, kept in memory from the spans of traces.
pub mod Types
pub mod Spans
pub mod Graph
pub mod Evict
pub mod Upsert
pub mod Consume
pub mod Sweep
pub mod Calls
pub mod Bound
pub mod Numbered
pub mod Sequence
pub mod Coldest
pub mod Neighbors
mod Scenarios
