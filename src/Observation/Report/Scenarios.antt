-- ===== src/Observation/Report/Scenarios.antt =====
-- The scenario criteria of a report, and the dictionary of results that they read.
use agent_crypto.Base.{
  String, true, false, ◌≡◌, refl, ◌↔◌, List, [], ◌∷◌, map, All, Has, inl, inr, arith, none, some,
  contains, text_eq_iff, ap, Option-cases,
}
use agent_crypto.Numbers.{Numbers, Value, boolean}
use agent_crypto.Observation.Policy.{text_of, all_different}
use agent_crypto.Observation.Evidence.{scenario_names}
use agent_crypto.Observation.Report.{scenario_result, scenario_criterion}
use agent_crypto.Observation.Report.Grades.{Passes, IsMandatory, scenario_iff}

module _ {N : Type 0} where
  scenario_result-eq-none :
      (name : String) (rs : List (String × Value N))
      → contains (scenario_names rs) name ≡ false
      → scenario_result name rs ≡ none
  unfolding scenario_result scenario_names
  scenario_result-eq-none name [] h = refl
  scenario_result-eq-none name ((key, w) ∷ rs) h =
      ground (arith, text_eq_iff key name, text_eq_iff name key, scenario_result-eq-none name rs)

  -- Where the names differ, the dictionary has the pairs of the list.
  scenario_result-Has :
      (name : String) (v : Value N) (rs : List (String × Value N))
      → scenario_result name rs ≡ some v
      → Has (name, v) rs
  unfolding scenario_result
  scenario_result-Has name v [] h = cc
  scenario_result-Has name v ((key, w) ∷ rs) h = elim (Option-cases (scenario_result name rs)) [
    | inl none_later ↦ inl (ground (arith, text_eq_iff key name))
    | inr (u, later) ↦ inr (scenario_result-Has name v rs (ground arith))
  ]

  Has-contains :
      (name : String) (v : Value N) (rs : List (String × Value N))
      → Has (name, v) rs
      → contains (scenario_names rs) name ≡ true
  unfolding scenario_names
  Has-contains name v [] h = absurd h
  Has-contains name v ((key, w) ∷ rs) (inl e) =
      ground (arith, text_eq_iff name key, ap (λ (q : String × Value N). q.0) e)
  Has-contains name v ((key, w) ∷ rs) (inr h) = ground (arith, Has-contains name v rs h)

  scenario_result-of_Has :
      (name : String) (v : Value N) (rs : List (String × Value N))
      → all_different (scenario_names rs) ≡ true
      → Has (name, v) rs
      → scenario_result name rs ≡ some v
  unfolding scenario_result scenario_names
  scenario_result-of_Has name v [] d h = absurd h
  scenario_result-of_Has name v ((key, w) ∷ rs) d (inl e) = ground (
    arith,
    text_eq_iff key name,
    scenario_result-eq-none name rs,
    ap (λ (q : String × Value N). q.0) e,
    ap (λ (q : String × Value N). q.1) e,
  )
  scenario_result-of_Has name v ((key, w) ∷ rs) d (inr h) =
      ground (arith, scenario_result-of_Has name v rs)

module _ {N : Type 0} ⦃o : Numbers N⦄ where
  pub scenarios-IsMandatory :
      (rs : List (String × Value N)) (vs : List (Value N))
      → All IsMandatory (map (λ v. scenario_criterion rs (text_of v)) vs)
  unfolding scenario_criterion
  scenarios-IsMandatory rs [] = tt
  scenarios-IsMandatory rs (v ∷ vs) = (refl, scenarios-IsMandatory rs vs)

  pub scenarios_iff :
      (rs : List (String × Value N)) (vs : List (Value N))
      → all_different (scenario_names rs) ≡ true
      → All Passes (map (λ v. scenario_criterion rs (text_of v)) vs)
        ↔ All (λ v. Has (text_of v, boolean true) rs) vs
  unfolding scenario_criterion
  scenarios_iff rs [] d = ((λ h. h), λ h. h)
  scenarios_iff rs (v ∷ vs) d =
      let (to, from) = scenarios_iff rs vs d in
      let (observed, passed) = scenario_iff (scenario_result (text_of v) rs) in
      (
        (λ (h, hs). (scenario_result-Has (text_of v) (boolean true) rs (observed h), to hs)),
        λ (h, hs). (passed (scenario_result-of_Has (text_of v) (boolean true) rs d h), from hs),
      )
