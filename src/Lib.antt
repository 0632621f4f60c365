-- ===== src/Lib.antt =====
-- Agent_Crypto: the deterministic core of a read-only research agent for crypto futures.
--
-- The program reads market data of Plus500 T4, computes metrics, proposes at most a research alert and
-- lets deterministic gates veto it. It never trades. A supervisor runs long observation campaigns and
-- keeps journals of what happened.
--
-- How the parts interact: `propose_research_alert` turns metrics into a proposal, `analyze_futures`
-- checks the futures evidence, `apply_futures_gate` drops an alert whose evidence does not pass, and
-- `RiskGate.evaluate` has the last word under a `RiskPolicy` that `validate_v1_safety` has accepted.
-- The supervisor appends events to a hash-chained journal and reads it back when it starts.
--
-- Files, with the code that each is about:
-- - Domain: src/crypto_agent/domain.py, the data that the parts exchange.
-- - Policy: `RiskPolicy` of src/crypto_agent/policy.py; Policy/Safe says what a safe policy
--   is, Policy/Accepts has the proofs about the validation.
-- - Gate: `RiskGate.evaluate` of the same file, cut into the parts in which the code computes it;
--   Gate/Inputs has `_valid_quality_input`, `_reference_price_failures`, `_valid_metrics_input`.
--   Gate/Inputs/Reference, Gate/Hits, Gate/Verdict and Gate/Output hold the proofs.
-- - Futures: src/crypto_agent/futures_analytics.py. Futures/Book has `_valid_book`, `_current_mid`,
--   `_timestamp_chain`; Futures/Lifecycle, Futures/Volume, Futures/Snapshot, Futures/Transition have
--   the functions of these names; Futures/Analysis has `analyze_futures`. Futures/Policy is
--   src/crypto_agent/futures_policy.py.
-- - Signals: src/crypto_agent/signals.py.
-- - Quality: src/crypto_agent/quality.py: `assess_data_quality`, `deduplicate_exact_candles`. The checks
--   of the loop over the candles are lists of tests with the flag that each raises; Quality/Clean and
--   Quality/Repeats have the proofs.
-- - Deadline: src/crypto_agent/deadline.py. Analytics: src/crypto_agent/analytics.py. Providers:
--   src/crypto_agent/providers/base.py. Providers/T4: `Plus500T4Provider.fetch_batch` of
--   src/crypto_agent/providers/t4.py; Providers/T4/Reading has the JSON and the small readers,
--   Providers/T4/Evidence the parsers of candles, reference price and futures evidence,
--   Providers/T4/Response the checks of the payload around them. The HTTP exchange is an argument.
-- - Orchestrator: src/crypto_agent/orchestrator.py, where these parts meet. Orchestrator gathers the data,
--   Orchestrator/Attested is `_source_attested`, Orchestrator/Evidence has the records under the
--   fingerprint, Orchestrator/Signal evaluates the data, Orchestrator/Report has the texts of the report,
--   Orchestrator/Analyze is `analyze`. Orchestrator/Chain, Gathering, Alert and Refusal hold the
--   proofs; Orchestrator/Payloads, Readings, Usable and Accepted those that join it to the T4 provider.
-- - Journal: the journals of `SupervisorStateStore` in src/crypto_agent/campaign_supervisor.py.
-- - Supervisor: campaign_supervisor.py again: what it reads of a campaign and of its commands.
--   Supervisor/Scope has `_run_scope`, Supervisor/Missed `_record_new_missed`, Supervisor/Services
--   `SystemdServiceManager.ensure_services`, Supervisor/Tick the `_tick` that composes
--   them, Supervisor/Config the configuration's `validate`. The commands' answers are an argument, a function of the number of commands run before;
--   sleeping and logging are fields of the state.
-- - Monitoring: Monitoring/Policy is src/crypto_agent/monitoring_policy.py, Monitoring/Delivery the
--   `deliver_one` of src/crypto_agent/monitoring.py with the functions that it calls, for one row of
--   the outbox: the attempts are a list, and the stream, the clock and the hashes are arguments.
-- - Observation: the acceptance campaigns of src/crypto_agent/observation.py. Observation/Policy is
--   observation_policy.py; Observation/Evidence has `ObservationEvidence` and `_validate_evidence`,
--   Observation/Criteria the functions that make one criterion each, Observation/Report
--   `evaluate_observation` and `_validate_report`. Observation/Cycle has the records of a cycle with
--   `_validate_cycle` and `_validate_cycle_execution`, Observation/Run `_insert_cycle` and `run_cycle`:
--   a transaction is a function from the store of one scope to a result with the new store, and an
--   error leaves the old one. Their children hold the proofs.
-- - Base, Numbers, Clock, Checked, Patterns: shared helpers. Samples and Tests: sample inputs and runs.
--
-- How values are modelled: a number is a member of a type N with the operations of `Numbers` (floats,
-- and ints in the range of floats), so that nothing is assumed of float arithmetic but what a
-- theorem names; the order laws of Numbers/Laws are such a hypothesis, which the numbers of
-- Numbers/Sample fulfil. A field whose type the code checks by itself holds any `Value`. A time is a
-- number of microseconds with its offset. JSON, SHA-256 and the parsing of ISO dates are parameters.
-- A file is the list of its bytes. All is structural recursion but the loop of `run_cycle` over expired
-- slots, which takes fuel: more than the campaign has slots is enough.
--
-- Not modelled: reading files and environment, PostgreSQL, HTTP, the command line, the C# bridge,
-- processes and locks, since they are input and output; the supervisor's outer loop and status file;
-- the ingestion, the rest of the monitoring, the SQL that derives the evidence of a campaign, and the
-- evidence verifier.
mod Base
pub mod Numbers
pub mod Clock
pub mod Checked
pub mod Domain
pub mod Policy
pub mod Quality
pub mod Deadline
pub mod Analytics
pub mod Providers
pub mod Orchestrator
mod Patterns
pub mod Gate
pub mod Futures
pub mod Signals
pub mod Journal
pub mod Supervisor
pub mod Observation
pub mod Monitoring
mod Samples
mod Tests
