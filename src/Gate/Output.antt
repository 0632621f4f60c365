-- ===== src/Gate/Output.antt =====
-- What an assessment of the gate carries.
use agent_crypto.Base.{
  ◌≤◌, ◌<◌, ◌+◌, String, true, ◌≡◌, ◌≢◌, refl, List, [], ◌∷◌, map, arith, Distinct, dedupe-Distinct,
}
use agent_crypto.Numbers.{Numbers, count_of}
use agent_crypto.Clock.{is_utc, seconds}
use agent_crypto.Domain.{Reason, plain}
use agent_crypto.Patterns.{is_sha256}
use agent_crypto.Policy.{RiskPolicy}
use agent_crypto.Policy.Safe.{IsSafe}
use agent_crypto.Gate.{
  Request, time_valid, safe_as_of, safe_expires_at, safe_fingerprint, fingerprint_valid,
  raised_reasons, or_proposal, or_default, raised_flags, evaluate,
}

zero_fingerprint :
    is_sha256 "0000000000000000000000000000000000000000000000000000000000000000" ≡ true
unfolding is_sha256
zero_fingerprint = refl

plain_some : {N : Type 0} (xs : List String) → xs ≢ [] → map {B = Reason N} plain xs ≢ []
plain_some [] h e = h refl
plain_some (x ∷ xs) h e = cc

module _ {N : Type 0} ⦃o : Numbers N⦄ (policy : RiskPolicy N) (r : Request N) where
  safe_as_of-is_utc : is_utc (safe_as_of policy r) ≡ true
  unfolding safe_as_of is_utc
  safe_as_of-is_utc = ground arith

  ttl_pos : IsSafe policy → 60 ≤ count_of policy.report_ttl_seconds
  ttl_pos safe = let (n, e, l, u) = safe.report_ttl in rw (e, count_of) l

  expiry_bounds :
      1 ≤ count_of policy.report_ttl_seconds
      → (is_utc (safe_expires_at policy r) ≡ true)
        × ((safe_as_of policy r).instant < (safe_expires_at policy r).instant)
        × ((safe_expires_at policy r).instant
            ≤ (safe_as_of policy r).instant + seconds (count_of policy.report_ttl_seconds))
  unfolding safe_expires_at safe_as_of time_valid is_utc
  expiry_bounds h = ground arith

  fingerprint_sha : is_sha256 (safe_fingerprint policy r) ≡ true
  unfolding safe_fingerprint fingerprint_valid
  fingerprint_sha = ground (arith, zero_fingerprint)

  or_default_some : (xs : List String) → or_default policy r xs ≢ []
  or_default_some [] e = cc
  or_default_some (x ∷ xs) e = cc

  reasons_some : (reasons : List (Reason N)) → or_proposal policy r reasons ≢ []
  reasons_some [] e =
      plain_some (or_default policy r r.proposal_reasons) (or_default_some r.proposal_reasons) e
  reasons_some (x ∷ xs) e = cc

  -- Under a policy that keeps the V1 limits, every assessment, also one of invalid input, is dated in
  -- UTC, expires after its date and within the policy's time to live, carries a SHA-256 fingerprint,
  -- lists no flag twice and gives at least one reason.
  pub evaluate-IsWellFormed :
      IsSafe policy
      → (uuid policy_hash : String)
      → let a = evaluate policy r uuid policy_hash in
        (is_utc a.as_of ≡ true)
        × (is_utc a.expires_at ≡ true)
        × (a.as_of.instant < a.expires_at.instant)
        × (a.expires_at.instant ≤ a.as_of.instant + seconds (count_of policy.report_ttl_seconds))
        × (is_sha256 a.input_fingerprint_sha256 ≡ true)
        × Distinct a.flags
        × (a.reasons ≢ [])
  evaluate-IsWellFormed safe uuid policy_hash =
      unfold evaluate in
      let (utc, after, within) = expiry_bounds (omega (arith, ttl_pos safe)) in
      (
        safe_as_of-is_utc,
        utc,
        after,
        within,
        fingerprint_sha,
        dedupe-Distinct (raised_flags policy r),
        reasons_some (raised_reasons policy r),
      )
