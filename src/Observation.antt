-- ===== src/Observation.antt =====
-- src/crypto_agent/observation.py and observation_policy.py: the acceptance campaigns that watch the
-- running system.
pub mod Policy
pub mod Fields
pub mod Evidence
pub mod Criteria
pub mod Report
pub mod Cycle
pub mod Run
