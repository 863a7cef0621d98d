-- ===== src/Sampler.antt =====
-- internal/sampler: the tail sampler.
pub mod Predicates
pub mod Assembly
mod Scenarios
