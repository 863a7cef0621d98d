-- ===== src/Rca.antt =====
pub mod Types
pub mod Tools
pub mod Journal
pub mod Budget
pub mod Interest
pub mod Engine
pub mod Investigate
pub mod Replay
pub mod Scenarios
