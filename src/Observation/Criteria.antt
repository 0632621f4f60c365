-- ===== src/Observation/Criteria.antt =====
-- src/crypto_agent/observation.py: `CriterionStatus`, `CriterionResult` and the functions that make
-- one criterion each: `_minimum`, `_minimum_optional`, `_maximum_optional`, `_boolean`, `_zero`,
-- `_coverage`, `_count_match`, `_latency` and `_rate`.
use agent_crypto.Base.{
  ℕ, String, Bool, true, false, ◌&&◌, List, [], ◌∷◌, leb, ltb, ◌==◌, if◌then◌else◌, Option, none,
  some,
}
use agent_crypto.Numbers.{Numbers, Value, absent, boolean, number, text, whole, number_of}
use agent_crypto.Observation.Policy.{ObservationPolicy}
use agent_crypto.Observation.Evidence.{ObservationEvidence}

pub data CriterionStatus : Type 0 where
  pass fail not_observed : CriterionStatus

-- `actual` and `threshold`: a plain value, or a dictionary of them.
pub data Shown (N : Type 0) : Type 0 where
  plain : Value N → Shown N
  fields : List (String × Value N) → Shown N

pub record CriterionResult (N : Type 0) : Type 0 where
  pub criterion_id : String
  pub status : CriterionStatus
  pub actual : Shown N
  pub threshold : Shown N
  pub mandatory : Bool

abbrev pub graded : Bool → CriterionStatus
graded b = if b then pass else fail

-- The status of `_minimum`.
abbrev pub reached : ℕ → ℕ → Bool → CriterionStatus
reached actual threshold incomplete_is_not_observed =
    if incomplete_is_not_observed && ltb actual threshold
    then not_observed
    else graded (leb threshold actual)

-- The status of `_coverage` and `_count_match`.
abbrev pub matched : ℕ → ℕ → CriterionStatus
matched actual expected = if expected == 0 then not_observed else graded (actual == expected)

abbrev pub is_pass : CriterionStatus → Bool
is_pass pass = true
is_pass _ = false

abbrev pub is_fail : CriterionStatus → Bool
is_fail fail = true
is_fail _ = false

abbrev pub is_not_observed : CriterionStatus → Bool
is_not_observed not_observed = true
is_not_observed _ = false

module _ {N : Type 0} where
  -- `CriterionResult(...)` with the default for `mandatory`.
  abbrev pub result : String → CriterionStatus → Shown N → Shown N → CriterionResult N
  result id s a t = record {
    criterion_id = id;
    status = s;
    actual = a;
    threshold = t;
    mandatory = true;
  }

module _ {N : Type 0} ⦃o : Numbers N⦄ where
  abbrev pub shown : ℕ → Shown N
  shown n = plain (number (whole n))

  unfoldable pub minimum : String → ℕ → ℕ → Bool → CriterionResult N
  minimum id actual threshold incomplete_is_not_observed =
      result id (reached actual threshold incomplete_is_not_observed) (shown actual)
        (shown threshold)

  unfoldable pub minimum_status : Option N → N → CriterionStatus
  minimum_status none threshold = not_observed
  minimum_status (some actual) threshold = graded (o.le threshold actual)

  unfoldable pub minimum_optional : String → Option N → N → CriterionResult N
  unfolding minimum_status
  minimum_optional id actual threshold =
      result id (minimum_status actual threshold)
        (plain (elim actual [ none ↦ absent | some x ↦ number (o.round x 8) ]))
        (plain (number threshold))

  -- The metric is `None` or a number.
  unfoldable pub maximum_status : Value N → N → CriterionStatus
  maximum_status absent threshold = not_observed
  maximum_status actual threshold = graded (o.le (number_of actual) threshold)

  unfoldable pub maximum_optional : String → Value N → N → CriterionResult N
  unfolding maximum_status
  maximum_optional id actual threshold =
      result id (maximum_status actual threshold) (plain actual) (plain (number threshold))

  unfoldable pub flag : String → Bool → String → CriterionResult N
  flag id actual threshold =
      result id (graded actual) (plain (boolean actual)) (plain (text threshold))

  unfoldable pub zero_count : String → ℕ → CriterionResult N
  zero_count id actual = result id (graded (actual == 0)) (shown actual) (shown 0)

  unfoldable pub coverage : ℕ → ℕ → CriterionResult N
  coverage scope_count covered_scope_count =
      result "configured_scope_coverage" (matched covered_scope_count scope_count)
        (fields (
          ("covered", number (whole covered_scope_count))
          ∷ ("configured", number (whole scope_count))
          ∷ []))
        (plain (text "all configured scopes covered"))

  unfoldable pub count_match : String → ℕ → ℕ → CriterionResult N
  count_match id actual expected =
      result id (matched actual expected) (shown actual) (shown expected)

  unfoldable pub latency_status : Value N → Value N → N → N → CriterionStatus
  latency_status absent p99 limit_95 limit_99 = not_observed
  latency_status p95 absent limit_95 limit_99 = not_observed
  latency_status p95 p99 limit_95 limit_99 =
      graded (o.le (number_of p95) limit_95 && o.le (number_of p99) limit_99)

  unfoldable pub latency : ObservationEvidence N → ObservationPolicy N → CriterionResult N
  unfolding latency_status
  latency e p =
      result "bridge_round_trip_latency"
        (latency_status e.bridge_rtt_p95_seconds e.bridge_rtt_p99_seconds
          (number_of p.maximum_bridge_rtt_p95_seconds) (number_of p.maximum_bridge_rtt_p99_seconds))
        (fields (
          ("p95_seconds", e.bridge_rtt_p95_seconds)
          ∷ ("p99_seconds", e.bridge_rtt_p99_seconds)
          ∷ []))
        (fields (
          ("p95_seconds", p.maximum_bridge_rtt_p95_seconds)
          ∷ ("p99_seconds", p.maximum_bridge_rtt_p99_seconds)
          ∷ []))

  -- `min(1.0, numerator / denominator)`
  unfoldable pub rate : ℕ → ℕ → Option N
  rate numerator denominator =
      let quotient = o.div (whole numerator) (whole denominator) in
      if denominator == 0
      then none
      else some (if o.lt quotient (o.decimal 1 0) then quotient else o.decimal 1 0)
