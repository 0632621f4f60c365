-- ===== src/Tests/JournalTests.antt =====
-- The journal on a toy format.
use agent_crypto.Base.{◌≡◌, refl, none, [], ◌∷◌, ◌++◌}
use agent_crypto.Journal.{Journal, recovered, journal_invalid, recover_journal}
use agent_crypto.Journal.Lines.{newline}
use agent_crypto.Journal.Torn.{
  written_all, recover_journal-append_all, recover_journal-torn, recover_journal-first_torn,
}
use agent_crypto.Tests.ToyFormat.{toy, toy-FormatLaws}

abbrev two_events : Journal
two_events = written_all toy "event" "campaign" toy-FormatLaws (tt ∷ tt ∷ [])

recover_journal-append_all_example :
    recover_journal toy "event" "campaign" two_events.file
    ≡ (recovered two_events.head none, two_events.file)
recover_journal-append_all_example =
    recover_journal-append_all toy "event" "campaign" toy-FormatLaws (tt ∷ tt ∷ []) refl

recover_journal-torn_example :
    recover_journal toy "event" "campaign" (two_events.file ++ 18 ∷ 120 ∷ [])
    ≡ (recovered two_events.head none, two_events.file)
recover_journal-torn_example =
    recover_journal-torn toy "event" "campaign" toy-FormatLaws tt (tt ∷ []) (18 ∷ 120 ∷ []) refl
      (((λ e. cc), λ e. cc), (((λ e. cc), λ e. cc), tt)) (λ e. cc)

recover_journal-first_torn_example :
    recover_journal toy "event" "campaign" (18 ∷ 120 ∷ [])
    ≡ (journal_invalid, 18 ∷ 120 ∷ newline ∷ [])
recover_journal-first_torn_example =
    recover_journal-first_torn toy "event" "campaign" (18 ∷ 120 ∷ [])
      (((λ e. cc), λ e. cc), (((λ e. cc), λ e. cc), tt)) (λ e. cc) refl
