-- ===== src/Tests.antt =====
-- Runs of the modelled code on the sample inputs, and the theorems applied to them.
mod GateTests
mod FuturesTests
mod ToyFormat
mod JournalTests
mod SupervisorTests
mod ObservationTests
mod CycleTests
mod MonitoringTests
mod QualityTests
mod OrchestratorTests
mod T4Tests
