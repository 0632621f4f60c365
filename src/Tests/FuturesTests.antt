-- ===== src/Tests/FuturesTests.antt =====
-- The futures analysis on the sample evidence.
use agent_crypto.Base.{◌||◌, Distinct, contains, String, true, ◌≡◌, refl, pos, some, []}
use agent_crypto.Checked.{accepted, crashed}
use agent_crypto.Numbers.{
  text, at_least?, below?, is_inked, is_int, strict_int_between, int_at_least, finite_positive,
  finite_nonnegative,
}
use agent_crypto.Patterns.{has_ink}
use agent_crypto.Base.{dedupe, sort_by}
use agent_crypto.Clock.{is_utc}
use agent_crypto.Numbers.Sample.{Decimal, int, decimals, decimals-OrderLaws}
use agent_crypto.Domain.{alert, available, MarketMetrics, FuturesEvidence}
use agent_crypto.Futures.Policy.{FuturesAnalysisPolicy, validate}
use agent_crypto.Futures.Policy.Accepts.{IsCoherent, validate_iff, validate-crashed}
use agent_crypto.Futures.Book.Order.{IsSide, Falling, Rising, Apart, valid_book-IsOrdered}
use agent_crypto.Futures.Analysis.Gate.{IsEvidenced, analyze_futures-IsEvidenced}
use agent_crypto.Signals.Triggers.{
  Triggered, IsExplained, propose_research_alert-IsExplained, gated_alert-IsEvidenced,
  apply_futures_gate-codes,
}
use agent_crypto.Futures.Book.{valid_book, timestamp_chain}
use agent_crypto.Futures.Lifecycle.{lifecycle_metrics, utc_datetime}
use agent_crypto.Futures.Volume.{volume_metrics}
use agent_crypto.Futures.Snapshot.{snapshot_metrics}
use agent_crypto.Futures.Transition.{transition_metrics}
use agent_crypto.Futures.Analysis.{analyze_futures}
use agent_crypto.Signals.{propose_research_alert, apply_futures_gate}
use agent_crypto.Samples.{
  futures_policy, candles, bids, asks, evidence, contract, parse, at_second, metrics,
}
use agent_crypto.Futures.Lifecycle.{Contract}

accepts_policy : validate futures_policy ≡ accepted tt
unfolding validate at_least? below? is_inked has_ink is_int strict_int_between int_at_least
    finite_positive
accepts_policy = refl

ordered_book : valid_book bids asks ≡ true
unfolding valid_book finite_positive finite_nonnegative
ordered_book = refl

quiet_contract : (lifecycle_metrics futures_policy parse (at_second 1100) contract).veto_flags ≡ []
unfolding lifecycle_metrics utc_datetime is_utc
quiet_contract = refl

scored : (volume_metrics candles futures_policy).status ≡ available
unfolding volume_metrics sort_by finite_nonnegative
scored = refl

quiet_snapshot :
    (snapshot_metrics futures_policy
      (at_second 1100)
      evidence
      "BTC/USD"
      (text "BTCZ6")
      (some (int (pos 5000)))).veto_flags
    ≡ []
unfolding snapshot_metrics timestamp_chain is_utc valid_book finite_positive finite_nonnegative
    dedupe
quiet_snapshot = refl

abbrev rolled_contract : Contract Decimal
rolled_contract = record contract { selection = text "rolled"; rolled_from = text "BTCX6" }

passes :
    (analyze_futures parse candles
      (some evidence)
      (at_second 1100)
      "BTC/USD"
      contract
      futures_policy).gate_passed
    ≡ true
unfolding analyze_futures dedupe volume_metrics sort_by finite_nonnegative lifecycle_metrics
    utc_datetime is_utc snapshot_metrics timestamp_chain valid_book finite_positive
    transition_metrics
passes = refl

gated :
    (apply_futures_gate (propose_research_alert (some metrics) true) (
      analyze_futures parse candles
        (some evidence)
        (at_second 1100)
        "BTC/USD"
        contract
        futures_policy)).decision
    ≡ alert
unfolding apply_futures_gate propose_research_alert analyze_futures dedupe volume_metrics sort_by
    finite_nonnegative lifecycle_metrics utc_datetime is_utc snapshot_metrics timestamp_chain
    valid_book finite_positive transition_metrics
gated = refl

-- The policy with the high-risk roll threshold in quotes.
abbrev quoted_policy : FuturesAnalysisPolicy Decimal
quoted_policy = record futures_policy { roll_high_risk_seconds = text "3600" }

validate_iff_example : IsCoherent futures_policy
validate_iff_example = (validate_iff futures_policy).0 accepts_policy

validate-crashed_example : validate quoted_policy ≡ crashed
validate-crashed_example = validate-crashed quoted_policy "3600" (int (pos 86400)) refl refl

valid_book-IsOrdered_example :
    IsSide bids × IsSide asks × Falling bids × Rising asks × Apart decimals-OrderLaws bids asks
valid_book-IsOrdered_example = valid_book-IsOrdered decimals-OrderLaws bids asks ordered_book

analyze_futures-IsEvidenced_example :
    (e : FuturesEvidence Decimal) × (some evidence ≡ some e)
    × IsEvidenced parse candles (at_second 1100) "BTC/USD" contract futures_policy e
analyze_futures-IsEvidenced_example =
    analyze_futures-IsEvidenced parse candles (at_second 1100) "BTC/USD" contract futures_policy
      (some evidence) passes

propose_research_alert-IsExplained_example :
    IsExplained true metrics (propose_research_alert (some metrics) true)
propose_research_alert-IsExplained_example = propose_research_alert-IsExplained true metrics

gated_alert-IsEvidenced_example :
    ((m : MarketMetrics Decimal) × (some metrics ≡ some m) × Triggered true m)
    × ((e : FuturesEvidence Decimal) × (some evidence ≡ some e)
        × IsEvidenced parse candles (at_second 1100) "BTC/USD" contract futures_policy e)
gated_alert-IsEvidenced_example =
    gated_alert-IsEvidenced parse candles (at_second 1100) "BTC/USD" contract futures_policy
      (some evidence) (some metrics) true gated

apply_futures_gate-codes_example :
    let p = propose_research_alert (some metrics) true in
    let f =
      analyze_futures parse candles
        (some evidence)
        (at_second 1100)
        "BTC/USD"
        contract
        futures_policy in
    Distinct (apply_futures_gate p f).reason_codes
    × ((code : String)
        → contains (apply_futures_gate p f).reason_codes code
          ≡ (contains p.reason_codes code || contains f.reason_codes code))
apply_futures_gate-codes_example =
    apply_futures_gate-codes (propose_research_alert (some metrics) true) (
      analyze_futures parse candles (some evidence) (at_second 1100) "BTC/USD" contract
        futures_policy)
