-- ===== src/Anomaly.antt =====
-- internal/anomaly: the grouping of anomaly events to incidents.
pub mod Types
pub mod Grouper
pub mod Incidents
mod Scenarios
