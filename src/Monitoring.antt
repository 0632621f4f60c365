-- ===== src/Monitoring.antt =====
-- The monitoring: src/crypto_agent/monitoring_policy.py and the delivery of alerts in
-- src/crypto_agent/monitoring.py.
pub mod Policy
pub mod Delivery
