-- ===== src/Observation/Run/Ledger.antt =====
-- What holds of the rows of a scope between two runs.
use agent_crypto.Base.{
  ℕ, suc, String, ◌≡◌, refl, sym, ◌∙◌, ap, subst, List, [], ◌∷◌, length, Option, none, some, ℤ,
  arith, if◌then◌else◌, inl, inr, pos,
}
use agent_crypto.Numbers.{Numbers, number, whole, count_of}
use agent_crypto.Numbers.Laws.{IntLaws}
use agent_crypto.Clock.{utc}
use agent_crypto.Observation.Cycle.{
  ObservationCycle, ObservationCycleExecution, validate_cycle, validate_cycle_execution,
}
use agent_crypto.Observation.Run.{
  Row, Store, CampaignRow, returned, Executed, executed, raised, slot, newest_hash, is_success,
  Surroundings, ObservationCycleRunResult, stored, missed_cycle, judged, outcome_cycle, plan_of,
  next_sequence, run_cycle, admitted,
}
use agent_crypto.Observation.Run.Due.{Misses, here, miss, IsHonest, run_cycle-IsHonest}

module _ {N : Type 0} where
  abbrev pub successes : List (Row N) → List (ObservationCycle N)
  successes [] = []
  successes (r ∷ rs) =
      let rest = successes rs in if is_success r.cycle then r.cycle ∷ rest else rest

module _ {N : Type 0} ⦃o : Numbers N⦄ (w : Surroundings N) (c : CampaignRow) where
  -- The n-th row, counted from 1, is a valid record of the n-th slot, and carries the hash of itself
  -- and of the row below it.
  abbrev pub IsChain : List (Row N) → Type 0
  IsChain [] = Unit
  IsChain (r ∷ rs) =
      (r.previous_cycle_hash ≡ newest_hash rs)
      × (r.content_hash ≡ w.chain_hash r.cycle (newest_hash rs))
      × (r.cycle.sequence_no ≡ number (whole (suc (length rs))))
      × (r.cycle.expected_at ≡ utc (slot c (suc (length rs))))
      × (validate_cycle w.is_uuid r.cycle ≡ none)
      × IsChain rs

  -- The rows are a chain, and the research inputs are those of the successes.
  pub record IsLedger (s : Store N) : Type 0 where
    pub chain : IsChain s.rows
    pub linked : s.research_inputs ≡ successes s.rows

  -- A record of slot n.
  abbrev IsFor : ℕ → ObservationCycle N → Type 0
  IsFor n x = (x.sequence_no ≡ number (whole n)) × (x.expected_at ≡ utc (slot c n))

  stored-IsLedger :
      (x : ObservationCycle N) (s : Store N)
      → IsLedger s
      → IsFor (suc (length s.rows)) x
      → validate_cycle w.is_uuid x ≡ none
      → IsLedger (stored w x s)
  stored-IsLedger x s l (sequence, expected) valid = record {
    chain = (refl, refl, sequence, expected, valid, l.chain);
    linked = let e = l.linked in ground arith;
  }

  missed-IsFor : (n : ℕ) → IsFor n (missed_cycle w c n)
  unfolding missed_cycle
  missed-IsFor n = (refl, refl)

  judged-IsFor :
      (n : ℕ) (x : ObservationCycleExecution N) (v : Option String) → IsFor n (judged w c n x v)
  unfolding judged
  judged-IsFor n x none = (refl, refl)
  judged-IsFor n x (some message) = (refl, refl)

  outcome-IsFor : (n : ℕ) (x : Executed N) → IsFor n (outcome_cycle w c n x)
  unfolding outcome_cycle
  outcome-IsFor n (raised code) = (refl, refl)
  outcome-IsFor n (executed x) =
      judged-IsFor n x (validate_cycle_execution w.is_uuid x (plan_of w c n))

  Misses-IsLedger :
      {n k : ℕ} {s t : Store N}
      → Misses w c n s k t
      → IsLedger s
      → n ≡ suc (length s.rows)
      → IsLedger t × (k ≡ suc (length t.rows))
  Misses-IsLedger here l e = (l, e)
  Misses-IsLedger (miss {n} {k} {s} {t} open_slot expired valid more) l e =
      Misses-IsLedger more
        (stored-IsLedger (missed_cycle w c n) s l
          (subst (λ (m : ℕ). IsFor m (missed_cycle w c n)) e (missed-IsFor n)) valid)
        (ap suc e)

  module _ (laws : IntLaws o) where
    pub count-whole : (n : ℕ) → count_of {N = N} (number (whole n)) ≡ n
    count-whole n =
        ap (λ (v : Option ℤ). elim v [ some (pos k) ↦ k | _ ↦ 0 ]) (laws.int?-integer (pos n))

    pub next_sequence-eq : (rs : List (Row N)) → IsChain rs → next_sequence rs ≡ suc (length rs)
    unfolding next_sequence
    next_sequence-eq [] h = refl
    next_sequence-eq (r ∷ rs) (_, _, sequence, _, _, _) =
        ap suc (ap count_of sequence ∙ count-whole (suc (length rs)))

    honest_IsLedger :
        (s t : Store N) (r : ObservationCycleRunResult N)
        → IsLedger s
        → IsHonest w c s r t
        → IsLedger t
    honest_IsLedger s t r l (k, u, misses, counted, inl (e, valid, stops, named)) =
        let (kept, next) = Misses-IsLedger misses l (next_sequence-eq s.rows l.chain) in
        subst IsLedger (sym e) (
          stored-IsLedger (outcome_cycle w c k (w.execute (plan_of w c k))) u kept
            (subst (λ (m : ℕ). IsFor m (outcome_cycle w c k (w.execute (plan_of w c k)))) next
              (outcome-IsFor k (w.execute (plan_of w c k))))
            valid)
    honest_IsLedger s t r l (k, u, misses, counted, inr (e, stops, some_missed, named)) =
        let (kept, next) = Misses-IsLedger misses l (next_sequence-eq s.rows l.chain) in
        subst IsLedger (sym e) kept

    -- Every run keeps the ledger of a scope: its rows stay numbered from 1 without a gap, each at the
    -- time of its slot, valid, and chained by hashes to the row before, and the research inputs stay
    -- those of the successes.
    pub run_cycle-IsLedger :
        (fuel : ℕ) (campaign : Option CampaignRow) (s t : Store N) (r : ObservationCycleRunResult N)
        → admitted w campaign ≡ returned c
        → run_cycle w fuel campaign s ≡ some (returned (r, t))
        → IsLedger s
        → IsLedger t
    run_cycle-IsLedger fuel campaign s t r known h l =
        honest_IsLedger s t r l (run_cycle-IsHonest w c fuel campaign s r t known h)
