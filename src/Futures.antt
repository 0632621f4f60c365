-- ===== src/Futures.antt =====
-- src/crypto_agent/futures_analytics.py: the deterministic analysis of the futures evidence.
pub mod Policy
pub mod Book
pub mod Lifecycle
pub mod Volume
pub mod Snapshot
pub mod Transition
pub mod Analysis
use agent_crypto.Base.{String, Bool, Option, List}
use agent_crypto.Domain.{FuturesMetrics, MetricStatus, SessionStatus}

-- One line of `counter_evidence`, with the value that its text shows.
pub data CounterLine (N : Type 0) : Type 0 where
  session_line : Option SessionStatus → CounterLine N
  expiry_line : Option String → CounterLine N
  spread_value : N → CounterLine N
  spread_state : MetricStatus → CounterLine N
  depth_state : MetricStatus → CounterLine N
  basis_value : N → CounterLine N
  basis_state : MetricStatus → CounterLine N
  limitations : List String → CounterLine N

pub record FuturesAnalysis (N : Type 0) : Type 0 where
  pub metrics : FuturesMetrics N
  pub gate_passed : Bool
  pub reason_codes : List String
  pub veto_flags : List String
  pub counter_evidence : List (CounterLine N)
  pub invalidation_conditions : List String
