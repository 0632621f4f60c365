-- ===== src/Observation/Report/Taken.antt =====
-- Which evidence and policies the evaluation of a campaign takes.
use agent_crypto.Base.{String, Bool, ◌≡◌, refl, ◌↔◌, Option, none, some, arith}
use agent_crypto.Numbers.{Numbers}
use agent_crypto.Checked.{Checked, accepted, rejected, crashed}
use agent_crypto.Observation.Policy.{ObservationPolicy, validate_observation_policy}
use agent_crypto.Observation.Policy.Accepts.{IsFrozen, validate_observation_policy_iff}
use agent_crypto.Observation.Evidence.{ObservationEvidence, validate_evidence}
use agent_crypto.Observation.Evidence.Sound.{IsSound, validate_evidence_iff}
use agent_crypto.Observation.Report.{
  ObservationQualityReport, graded_report, after_policy, after_evidence, evaluate_observation,
}

module _ {N : Type 0} ⦃o : Numbers N⦄ (is_uuid : String → Bool)
    (policy_hash : ObservationPolicy N → String) (e : ObservationEvidence N)
    (p : ObservationPolicy N) where
  after_evidence-eq-accepted :
      (r : ObservationQualityReport N) (v : Option String)
      → after_evidence is_uuid policy_hash v e p ≡ accepted r
      → (v ≡ none) × (graded_report is_uuid policy_hash e p ≡ r)
  after_evidence-eq-accepted r none h = (refl, cc)
  after_evidence-eq-accepted r (some m) h = ground arith

  after_policy-eq-accepted :
      (r : ObservationQualityReport N) (c : Checked (Unit {0}))
      → after_policy is_uuid policy_hash c e p ≡ accepted r
      → (c ≡ accepted tt)
        × (after_evidence is_uuid policy_hash (validate_evidence is_uuid e) e p ≡ accepted r)
  after_policy-eq-accepted r (accepted tt) h = (refl, h)
  after_policy-eq-accepted r (rejected m) h = ground arith
  after_policy-eq-accepted r crashed h = ground arith

  pub evaluate_observation-eq-accepted :
      (r : ObservationQualityReport N)
      → evaluate_observation is_uuid policy_hash e p ≡ accepted r
      → IsFrozen p × IsSound is_uuid e × (graded_report is_uuid policy_hash e p ≡ r)
  unfolding evaluate_observation
  evaluate_observation-eq-accepted r h =
      let (frozen, next) = after_policy-eq-accepted r (validate_observation_policy p) h in
      let (sound, graded) = after_evidence-eq-accepted r (validate_evidence is_uuid e) next in
      (
        (validate_observation_policy_iff p).0 frozen,
        (validate_evidence_iff is_uuid e).0 sound,
        graded,
      )

  pub evaluate_observation-of_sound :
      IsFrozen p
      → IsSound is_uuid e
      → evaluate_observation is_uuid policy_hash e p
        ≡ accepted (graded_report is_uuid policy_hash e p)
  unfolding evaluate_observation
  evaluate_observation-of_sound frozen sound =
      rw ((validate_observation_policy_iff p).1 frozen)
        (rw ((validate_evidence_iff is_uuid e).1 sound))

  -- The evaluation returns a report exactly for a frozen policy and sound evidence, and is an error
  -- for every other input.
  pub evaluate_observation-accepted_iff :
      ((r : ObservationQualityReport N) × (evaluate_observation is_uuid policy_hash e p
          ≡ accepted r))
      ↔ (IsFrozen p × IsSound is_uuid e)
  evaluate_observation-accepted_iff = (
    (λ (r, h).
        let (frozen, sound, graded) = evaluate_observation-eq-accepted r h in (frozen, sound)),
    λ (frozen, sound).
        (graded_report is_uuid policy_hash e p, evaluate_observation-of_sound frozen sound),
  )
