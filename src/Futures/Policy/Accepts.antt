-- ===== src/Futures/Policy/Accepts.antt =====
-- Which futures policies `validate` accepts, and where it leaves its own error type.
use agent_crypto.Base.{String, false, ◌≡◌, ◌↔◌, some, [], pos, arith}
use agent_crypto.Numbers.{Numbers, number, text, at_least?, below?, int_of}
use agent_crypto.Numbers.Ranges.{
  IsIntIn, IsIntFrom, IsFinitePos, IsInked, is_text_iff, strict_int_between_iff, is_int_iff,
  int_at_least_iff, finite_positive_iff, is_inked_iff,
}
use agent_crypto.Checked.{accepted, crashed, AllHold, errors_of-eq-nil_iff, conclude_iff}
use agent_crypto.Futures.Policy.{
  FuturesAnalysisPolicy, approved_basis_reference_type, approved_basis_source_id, type_checks,
  source_checks, collect_errors, validate,
}

module _ {N : Type 0} ⦃o : Numbers N⦄ where
  -- Every threshold is set, of its type and in its range, and the high-risk thresholds lie below the
  -- warning thresholds.
  pub record IsCoherent (p : FuturesAnalysisPolicy N) : Type 0 where
    pub name : IsInked p.policy_id
    pub schema : int_of p.schema_version ≡ some (pos 1)
    pub depth : IsIntIn 1 50 p.required_book_depth
    pub snapshot_age : IsIntFrom 1 p.max_snapshot_age_seconds
    pub basis_age : IsIntFrom 1 p.max_basis_age_seconds
    pub skew : IsIntFrom 1 p.max_timestamp_skew_seconds
    pub roll_warning : IsIntFrom 1 p.roll_warning_seconds
    pub roll_high : IsIntFrom 1 p.roll_high_risk_seconds
    pub expiry_warning : IsIntFrom 1 p.expiry_warning_seconds
    pub expiry_high : IsIntFrom 1 p.expiry_high_risk_seconds
    pub window : IsIntFrom 1 p.volume_window
    pub relative_window : IsIntFrom 1 p.relative_volume_window
    pub spread : IsFinitePos p.max_spread_bps
    pub side_depth : IsFinitePos p.min_depth_per_side
    pub basis : IsFinitePos p.max_absolute_basis_bps
    pub roll_impact : IsFinitePos p.max_absolute_roll_impact_bps
    pub reference_type : p.basis_reference_type ≡ text approved_basis_reference_type
    pub source : p.basis_source_id ≡ text approved_basis_source_id
    pub roll_order : at_least? p.roll_high_risk_seconds p.roll_warning_seconds ≡ some false
    pub expiry_order : at_least? p.expiry_high_risk_seconds p.expiry_warning_seconds ≡ some false
    pub windows :
        (below? p.volume_window 3 ≡ some false) × (below? p.relative_volume_window 2 ≡ some false)

  -- What a collection without errors says of its parts.
  Collects : FuturesAnalysisPolicy N → Type 0
  Collects p =
      AllHold (type_checks p)
      × AllHold (source_checks p)
      × (at_least? p.roll_high_risk_seconds p.roll_warning_seconds ≡ some false)
      × (at_least? p.expiry_high_risk_seconds p.expiry_warning_seconds ≡ some false)
      × (below? p.volume_window 3 ≡ some false)
      × (below? p.relative_volume_window 2 ≡ some false)

  collect_errors_iff : (p : FuturesAnalysisPolicy N) → (collect_errors p ≡ some []) ↔ Collects p
  unfolding collect_errors Collects
  collect_errors_iff p =
      ground (arith, errors_of-eq-nil_iff (type_checks p), errors_of-eq-nil_iff (source_checks p))

  IsCoherent-of : (p : FuturesAnalysisPolicy N) → Collects p → IsCoherent p
  unfolding Collects type_checks source_checks
  IsCoherent-of p
        (
          (
            name,
            (
              schema,
              (
                depth,
                (
                  age,
                  (
                    basis_age,
                    (
                      skew,
                      (
                        roll_w,
                        (
                          roll_h,
                          (
                            expiry_w,
                            (
                              expiry_h,
                              (window, (relative, (spread, (side, (basis, (impact, _)))))),
                            ),
                          ),
                        ),
                      ),
                    ),
                  ),
                ),
              ),
            ),
          ),
          (type, (source, _)),
          roll,
          expiry,
          w,
          r,
        ) =
      record {
        name = (is_inked_iff _).0 name;
        schema = (is_int_iff 1 _).0 schema;
        depth = (strict_int_between_iff _ _ _).0 depth;
        snapshot_age = (int_at_least_iff 1 _).0 age;
        basis_age = (int_at_least_iff 1 _).0 basis_age;
        skew = (int_at_least_iff 1 _).0 skew;
        roll_warning = (int_at_least_iff 1 _).0 roll_w;
        roll_high = (int_at_least_iff 1 _).0 roll_h;
        expiry_warning = (int_at_least_iff 1 _).0 expiry_w;
        expiry_high = (int_at_least_iff 1 _).0 expiry_h;
        window = (int_at_least_iff 1 _).0 window;
        relative_window = (int_at_least_iff 1 _).0 relative;
        spread = (finite_positive_iff _).0 spread;
        side_depth = (finite_positive_iff _).0 side;
        basis = (finite_positive_iff _).0 basis;
        roll_impact = (finite_positive_iff _).0 impact;
        reference_type = (is_text_iff _ _).0 type;
        source = (is_text_iff _ _).0 source;
        roll_order = roll;
        expiry_order = expiry;
        windows = (w, r);
      }

  Collects-of : (p : FuturesAnalysisPolicy N) → IsCoherent p → Collects p
  unfolding Collects type_checks source_checks
  Collects-of p c = (
    (
      (is_inked_iff _).1 c.name,
      (
        (is_int_iff 1 _).1 c.schema,
        (
          (strict_int_between_iff _ _ _).1 c.depth,
          (
            (int_at_least_iff 1 _).1 c.snapshot_age,
            (
              (int_at_least_iff 1 _).1 c.basis_age,
              (
                (int_at_least_iff 1 _).1 c.skew,
                (
                  (int_at_least_iff 1 _).1 c.roll_warning,
                  (
                    (int_at_least_iff 1 _).1 c.roll_high,
                    (
                      (int_at_least_iff 1 _).1 c.expiry_warning,
                      (
                        (int_at_least_iff 1 _).1 c.expiry_high,
                        (
                          (int_at_least_iff 1 _).1 c.window,
                          (
                            (int_at_least_iff 1 _).1 c.relative_window,
                            (
                              (finite_positive_iff _).1 c.spread,
                              (
                                (finite_positive_iff _).1 c.side_depth,
                                (
                                  (finite_positive_iff _).1 c.basis,
                                  ((finite_positive_iff _).1 c.roll_impact, tt),
                                ),
                              ),
                            ),
                          ),
                        ),
                      ),
                    ),
                  ),
                ),
              ),
            ),
          ),
        ),
      ),
    ),
    ((is_text_iff _ _).1 c.reference_type, ((is_text_iff _ _).1 c.source, tt)),
    c.roll_order,
    c.expiry_order,
    c.windows.0,
    c.windows.1,
  )

  -- `validate` returns for exactly the policies with every threshold set, of its type and in its
  -- range, the approved basis reference, long enough windows, and each high-risk threshold below its
  -- warning threshold.
  pub validate_iff : (p : FuturesAnalysisPolicy N) → (validate p ≡ accepted tt) ↔ IsCoherent p
  unfolding validate
  validate_iff p =
      let (to, from) = collect_errors_iff p in
      let (to', from') = conclude_iff (collect_errors p) in
      ((λ h. IsCoherent-of p (to (to' h))), λ c. from' (from (Collects-of p c)))

  -- A policy file with the high-risk roll threshold written as a text and the warning threshold as a
  -- number makes `validate` raise TypeError: it neither returns nor raises its own error.
  pub validate-crashed :
      (p : FuturesAnalysisPolicy N) (s : String) (x : N)
      → p.roll_high_risk_seconds ≡ text s
      → p.roll_warning_seconds ≡ number x
      → validate p ≡ crashed
  unfolding validate collect_errors at_least?
  validate-crashed p s x h w = ground arith
