-- ===== src/Observation/Cycle/Parts.antt =====
-- The three kinds of cycle, and the tests that each passes.
use agent_crypto.Base.{
  ℕ, String, Bool, true, false, ◌≡◌, ◌↔◌, ◌⊎◌, refl, is_some, is_none, Option, none, some, ◌≤◌,
  arith,
}
use agent_crypto.Numbers.{Numbers, Value, absent, is_absent, text, number, boolean, other}
use agent_crypto.Numbers.Ranges.{IsIntFrom, int_at_least_iff}
use agent_crypto.Checked.{AllHold}
use agent_crypto.Clock.{Datetime, is_aware}
use agent_crypto.Observation.Fields.{canonical_uuid, digest}
use agent_crypto.Observation.Cycle.{
  ObservationCycle, optional_code, is_scope_key, time_checks, success_checks, failure_checks,
  missed_empty, success_complete, failure_complete,
}

is_some_iff {ℓ} : {A : Type ℓ} (v : Option A) → (is_some v ≡ true) ↔ ((a : A) × (v ≡ some a))
is_some_iff none = ((λ h. ground arith), λ (a, e). ground arith)
is_some_iff (some a) = ((λ h. (a, refl)), λ h. refl)

is_none_iff {ℓ} : {A : Type ℓ} (v : Option A) → (is_none v ≡ true) ↔ (v ≡ none)
is_none_iff none = ((λ h. refl), λ h. refl)
is_none_iff (some a) = ground arith

-- Two aware times in order.
abbrev pub IsSpan : Option Datetime → Option Datetime → Type 0
IsSpan start end =
    (s : Datetime) × (t : Datetime) × (start ≡ some s)
    × (end ≡ some t)
    × (is_aware s ≡ true)
    × (is_aware t ≡ true)
    × (s.instant ≤ t.instant)

module _ {N : Type 0} ⦃o : Numbers N⦄ where
  is_absent_iff : (v : Value N) → (is_absent v ≡ true) ↔ (v ≡ absent)
  is_absent_iff absent = ((λ h. refl), λ h. refl)
  is_absent_iff (number x) = ground arith
  is_absent_iff (boolean x) = ground arith
  is_absent_iff (text x) = ground arith
  is_absent_iff other = ground arith

  -- A missed cycle has nothing but its slot.
  pub record IsMissed (c : ObservationCycle N) : Type 0 where
    pub outcome : c.outcome ≡ "missed"
    pub no_start : c.started_at ≡ none
    pub no_end : c.finished_at ≡ none
    pub no_error : c.error_code ≡ none
    pub no_gap : c.gap_explanation_code ≡ none
    pub no_batch : c.t4_batch_id ≡ absent
    pub no_run : c.research_run_id ≡ absent
    pub no_input : c.analysis_input_hash ≡ absent
    pub no_schema : c.bridge_schema_version ≡ absent
    pub no_payload : c.raw_payload_hash ≡ absent
    pub no_rtt : c.bridge_rtt_milliseconds ≡ absent
    pub no_trace : c.trace_id ≡ absent

  IsSpan-of_checks :
      (c : ObservationCycle N)
      → is_some c.started_at ≡ true
      → is_some c.finished_at ≡ true
      → AllHold (time_checks c)
      → IsSpan c.started_at c.finished_at
  unfolding time_checks
  IsSpan-of_checks c hs ht (a, (b, (d, _))) =
      let (s, es) = (is_some_iff c.started_at).0 hs in
      let (t, et) = (is_some_iff c.finished_at).0 ht in
      (s, t, es, et, ground arith, ground arith, ground arith)

  pub IsMissed-of_checks :
      (c : ObservationCycle N) → c.outcome ≡ "missed" → missed_empty c ≡ true → IsMissed c
  unfolding missed_empty
  IsMissed-of_checks c outcome empty = record {
    outcome = outcome;
    no_start = (is_none_iff _).0 (ground arith);
    no_end = (is_none_iff _).0 (ground arith);
    no_error = (is_none_iff _).0 (ground arith);
    no_gap = (is_none_iff _).0 (ground arith);
    no_batch = (is_absent_iff _).0 (ground arith);
    no_run = (is_absent_iff _).0 (ground arith);
    no_input = (is_absent_iff _).0 (ground arith);
    no_schema = (is_absent_iff _).0 (ground arith);
    no_payload = (is_absent_iff _).0 (ground arith);
    no_rtt = (is_absent_iff _).0 (ground arith);
    no_trace = (is_absent_iff _).0 (ground arith);
  }

  pub empty_of : (c : ObservationCycle N) → IsMissed c → missed_empty c ≡ true
  unfolding missed_empty
  empty_of c m = rw (
    m.no_start, m.no_end, m.no_error, m.no_gap, m.no_batch, m.no_run, m.no_input, m.no_schema,
    m.no_payload, m.no_rtt, m.no_trace,
  )

  pub times_of_missed : (c : ObservationCycle N) → IsMissed c → AllHold (time_checks c)
  unfolding time_checks
  times_of_missed c m = rw (m.no_start, m.no_end) (refl, (refl, (refl, tt)))

  digest_present : (v : Value N) → digest v ≡ true → is_absent v ≡ false
  digest_present (text s) h = refl
  digest_present absent h = ground arith
  digest_present (number x) h = refl
  digest_present (boolean b) h = refl
  digest_present other h = refl

  int_present : (n : ℕ) (v : Value N) → IsIntFrom n v → is_absent v ≡ false
  int_present n (number x) h = refl
  int_present n absent (k, e, l) = ground arith
  int_present n (text s) h = refl
  int_present n (boolean b) h = refl
  int_present n other h = refl

  uuid_present :
      (is_uuid : String → Bool) (v : Value N)
      → canonical_uuid is_uuid v ≡ true
      → is_absent v ≡ false
  uuid_present is_uuid (text s) h = refl
  uuid_present is_uuid absent h = ground arith
  uuid_present is_uuid (number x) h = refl
  uuid_present is_uuid (boolean b) h = refl
  uuid_present is_uuid other h = refl

  pub span_checks :
      (c : ObservationCycle N) → IsSpan c.started_at c.finished_at → AllHold (time_checks c)
  unfolding time_checks
  span_checks c (s, t, es, et, a, b, l) = rw (es, et) (a, (b, (ground arith, tt)))

module _ {N : Type 0} ⦃o : Numbers N⦄ (is_uuid : String → Bool) where
  -- What every cycle has.
  pub record IsHeaded (c : ObservationCycle N) : Type 0 where
    pub campaign : canonical_uuid is_uuid c.campaign_id ≡ true
    pub expected : is_aware c.expected_at ≡ true
    pub scope : is_scope_key c.scope_key ≡ true
    pub sequence : IsIntFrom 1 c.sequence_no
    pub error : optional_code c.error_code ≡ true
    pub gap : optional_code c.gap_explanation_code ≡ true

  -- A success has its times and every link, and neither an error nor an explanation.
  pub record IsSuccess (c : ObservationCycle N) : Type 0 where
    pub outcome : c.outcome ≡ "success"
    pub span : IsSpan c.started_at c.finished_at
    pub no_error : c.error_code ≡ none
    pub no_gap : c.gap_explanation_code ≡ none
    pub batch : IsIntFrom 1 c.t4_batch_id
    pub run : IsIntFrom 1 c.research_run_id
    pub schema : IsIntFrom 1 c.bridge_schema_version
    pub rtt : IsIntFrom 0 c.bridge_rtt_milliseconds
    pub input : digest c.analysis_input_hash ≡ true
    pub payload : digest c.raw_payload_hash ≡ true
    pub trace : canonical_uuid is_uuid c.trace_id ≡ true

  -- A failure has its times, an error and a trace, and no link to data.
  pub record IsFailure (c : ObservationCycle N) : Type 0 where
    pub outcome : c.outcome ≡ "failure"
    pub span : IsSpan c.started_at c.finished_at
    pub error : (code : String) × (c.error_code ≡ some code)
    pub no_gap : c.gap_explanation_code ≡ none
    pub no_batch : c.t4_batch_id ≡ absent
    pub no_run : c.research_run_id ≡ absent
    pub no_input : c.analysis_input_hash ≡ absent
    pub no_schema : c.bridge_schema_version ≡ absent
    pub no_payload : c.raw_payload_hash ≡ absent
    pub trace : canonical_uuid is_uuid c.trace_id ≡ true

  pub IsSuccess-of_checks :
      (c : ObservationCycle N)
      → c.outcome ≡ "success"
      → AllHold (success_checks is_uuid c)
      → AllHold (time_checks c)
      → IsSuccess c
  unfolding success_checks success_complete
  IsSuccess-of_checks c outcome (complete, (payload, (input, (links, (trace, _))))) times = record {
    outcome = outcome;
    span = IsSpan-of_checks c (ground arith) (ground arith) times;
    no_error = (is_none_iff _).0 (ground arith);
    no_gap = (is_none_iff _).0 (ground arith);
    batch = (int_at_least_iff 1 c.t4_batch_id).0 (ground arith);
    run = (int_at_least_iff 1 c.research_run_id).0 (ground arith);
    schema = (int_at_least_iff 1 c.bridge_schema_version).0 (ground arith);
    rtt = (int_at_least_iff 0 c.bridge_rtt_milliseconds).0 (ground arith);
    input = input;
    payload = payload;
    trace = trace;
  }

  pub IsFailure-of_checks :
      (c : ObservationCycle N)
      → c.outcome ≡ "failure"
      → AllHold (failure_checks is_uuid c)
      → AllHold (time_checks c)
      → IsFailure c
  unfolding failure_checks failure_complete
  IsFailure-of_checks c outcome (complete, (trace, _)) times = record {
    outcome = outcome;
    span = IsSpan-of_checks c (ground arith) (ground arith) times;
    error = (is_some_iff _).0 (ground arith);
    no_gap = (is_none_iff _).0 (ground arith);
    no_batch = (is_absent_iff _).0 (ground arith);
    no_run = (is_absent_iff _).0 (ground arith);
    no_input = (is_absent_iff _).0 (ground arith);
    no_schema = (is_absent_iff _).0 (ground arith);
    no_payload = (is_absent_iff _).0 (ground arith);
    trace = trace;
  }

  pub success_checks_of :
      (c : ObservationCycle N) → IsSuccess c → AllHold (success_checks is_uuid c)
  unfolding success_checks success_complete
  success_checks_of c s =
      let (a, b, ea, eb, _, _, _) = s.span in
      let no_error = s.no_error in
      let no_gap = s.no_gap in
      let batch = int_present 1 c.t4_batch_id s.batch in
      let run = int_present 1 c.research_run_id s.run in
      let schema = int_present 1 c.bridge_schema_version s.schema in
      let rtt = int_present 0 c.bridge_rtt_milliseconds s.rtt in
      let input = digest_present c.analysis_input_hash s.input in
      let payload = digest_present c.raw_payload_hash s.payload in
      let trace = uuid_present is_uuid c.trace_id s.trace in
      let batch' = (int_at_least_iff 1 c.t4_batch_id).1 s.batch in
      let run' = (int_at_least_iff 1 c.research_run_id).1 s.run in
      let schema' = (int_at_least_iff 1 c.bridge_schema_version).1 s.schema in
      let rtt' = (int_at_least_iff 0 c.bridge_rtt_milliseconds).1 s.rtt in
      (ground arith, (s.payload, (s.input, (ground arith, (s.trace, tt)))))

  pub failure_checks_of :
      (c : ObservationCycle N) → IsFailure c → AllHold (failure_checks is_uuid c)
  unfolding failure_checks failure_complete
  failure_checks_of c f =
      let (a, b, ea, eb, _, _, _) = f.span in
      let (code, error) = f.error in
      let no_gap = f.no_gap in
      let batch = f.no_batch in
      let run = f.no_run in
      let schema = f.no_schema in
      let input = f.no_input in
      let payload = f.no_payload in
      let trace = uuid_present is_uuid c.trace_id f.trace in (ground arith, (f.trace, tt))

  -- A cycle of one of the three kinds, each with a header.
  abbrev pub IsShaped : ObservationCycle N → Type 0
  IsShaped c = IsHeaded c × (IsSuccess c ⊎ (IsFailure c ⊎ IsMissed c))
