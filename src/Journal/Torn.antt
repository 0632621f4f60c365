-- ===== src/Journal/Torn.antt =====
-- What `_recover_journal` makes of a journal whose last line was not written to its end.
use agent_crypto.Base.{
  ℕ, String, false, ◌≡◌, ◌≢◌, refl, sym, ◌∙◌, ap, Option, none, some, List, [], ◌∷◌, ◌++◌, is_empty,
  text_eq, append-eq-nil, arith,
}
use mathlib.Core.List.{append_assoc}
use agent_crypto.Journal.{
  Format, FormatLaws, Journal, recovered, journal_invalid, chain_record, append, check_line,
  check_lines, mended, recover_journal,
}
use agent_crypto.Journal.Lines.{
  newline, IsInline, ends_in_newline, cut_last_line-append, cut_last_line-inline,
  ends_in_newline-inline, ends_in_newline-append, split_lines-append,
}
use agent_crypto.Journal.Recovery.{append_all, line_of, append_all-file, check_lines-append_all}

not_empty : (xs : List ℕ) → xs ≢ [] → is_empty xs ≡ false
not_empty [] h = absurd (h refl)
not_empty (x ∷ xs) h = refl

joined_ne : (xs : List ℕ) (y : ℕ) (ys : List ℕ) → xs ++ y ∷ ys ≢ []
joined_ne xs y ys e = let last = (append-eq-nil xs (y ∷ ys) e).1 in cc

torn_end :
    (whole torn : List ℕ)
    → IsInline torn
    → torn ≢ []
    → ends_in_newline (whole ++ newline ∷ torn) ≡ false
torn_end whole [] h n = absurd (n refl)
torn_end whole (t ∷ torn) h n =
    ends_in_newline-append whole newline (t ∷ torn)
    ∙ ends_in_newline-append (newline ∷ []) t torn
    ∙ ends_in_newline-inline (t ∷ torn) h

module _ {P : Type 0} (f : Format P) (kind campaign_id : String) where
  mended_whole :
      (whole : List ℕ) → mended f kind campaign_id (whole ++ newline ∷ []) ≡ whole ++ newline ∷ []
  unfolding mended ends_in_newline
  mended_whole whole = let e = ends_in_newline-append whole newline [] in ground arith

  mended_torn :
      (whole torn : List ℕ)
      → whole ≢ []
      → IsInline torn
      → torn ≢ []
      → mended f kind campaign_id (whole ++ newline ∷ torn) ≡ whole ++ newline ∷ []
  unfolding mended
  mended_torn whole torn n h m =
      rw
        (
          cut_last_line-append whole torn h,
          torn_end whole torn h m,
          not_empty _ (joined_ne whole newline torn),
          not_empty whole n,
          mended,
        )
        refl

  mended_inline :
      (torn : List ℕ)
      → IsInline torn
      → torn ≢ []
      → mended f kind campaign_id torn ≡ torn ++ newline ∷ []
  unfolding mended
  mended_inline torn h m =
      rw (cut_last_line-inline torn h, ends_in_newline-inline torn h, not_empty torn m, mended) refl

  -- What appending leaves: lines, and a newline behind the last.
  abbrev Lines : List ℕ → Type 0
  Lines file = (whole : List ℕ) × (whole ≢ []) × (file ≡ whole ++ newline ∷ [])

  module _ (laws : FormatLaws f) where
    append_all-Lines :
        (p : P) (ps : List P) (head : Option String)
        → Lines (append_all f kind campaign_id (p ∷ ps) (record { file = []; head = head })).file
    unfolding append
    append_all-Lines p [] head = (line_of f kind campaign_id p head, laws.render-ne _, refl)
    append_all-Lines p (q ∷ ps) head =
        let line = line_of f kind campaign_id p head in
        let next = some (chain_record f kind campaign_id p head).1 in
        let (file, _) = append_all-file f kind campaign_id (q ∷ ps) (line ++ newline ∷ []) next in
        let (whole, n, e) = append_all-Lines q ps next in
        (
          line ++ newline ∷ whole,
          joined_ne line newline whole,
          file
              ∙ append_assoc line (newline ∷ []) _
              ∙ ap (λ l. line ++ newline ∷ l) e
              ∙ sym (append_assoc line (newline ∷ whole) (newline ∷ [])),
        )

    abbrev pub written_all : List P → Journal
    written_all ps = append_all f kind campaign_id ps (record { file = []; head = none })

    recovers_from :
        (ps : List P) (file : List ℕ)
        → text_eq kind "snapshot" ≡ false
        → mended f kind campaign_id file ≡ (written_all ps).file
        → recover_journal f kind campaign_id file
          ≡ (recovered (written_all ps).head none, (written_all ps).file)
    unfolding recover_journal
    recovers_from ps file k e =
        rw (e, k)
          (ap (λ r. (r, (written_all ps).file))
            (check_lines-append_all f kind campaign_id laws ps none none))

    -- An event journal that only `append_event` has written, from an empty file, is read back without
    -- an error: recovery finds the hash that was written last and leaves the file as it is.
    pub recover_journal-append_all :
        (ps : List P)
        → text_eq kind "snapshot" ≡ false
        → recover_journal f kind campaign_id (written_all ps).file
          ≡ (recovered (written_all ps).head none, (written_all ps).file)
    recover_journal-append_all [] k = recovers_from [] [] k (unfold mended in refl)
    recover_journal-append_all (p ∷ ps) k =
        let (whole, n, e) = append_all-Lines p ps none in
        recovers_from (p ∷ ps) _ k (ap (mended f kind campaign_id) e ∙ mended_whole whole ∙ sym e)

    -- A line that was cut short after at least one whole event is dropped: recovery gives the hash of
    -- the last whole event and restores the file that the whole events make.
    pub recover_journal-torn :
        (p : P) (ps : List P) (torn : List ℕ)
        → text_eq kind "snapshot" ≡ false
        → IsInline torn
        → torn ≢ []
        → recover_journal f kind campaign_id ((written_all (p ∷ ps)).file ++ torn)
          ≡ (recovered (written_all (p ∷ ps)).head none, (written_all (p ∷ ps)).file)
    recover_journal-torn p ps torn k h m =
        let (whole, n, e) = append_all-Lines p ps none in
        recovers_from (p ∷ ps) _ k (
          ap (λ l. mended f kind campaign_id (l ++ torn)) e
          ∙ ap (mended f kind campaign_id) (append_assoc whole (newline ∷ []) torn)
          ∙ mended_torn whole torn n h m
          ∙ sym e)

  -- A first event that was cut short, and is no JSON object by itself, is not dropped: recovery ends
  -- in SUPERVISOR_JOURNAL_INVALID and keeps the fragment as the file's first line.
  pub recover_journal-first_torn :
      (torn : List ℕ)
      → IsInline torn
      → torn ≢ []
      → f.parse torn ≡ none
      → recover_journal f kind campaign_id torn ≡ (journal_invalid, torn ++ newline ∷ [])
  unfolding recover_journal check_lines check_line
  recover_journal-first_torn torn h m e =
      rw (mended_inline torn h m, split_lines-append torn [] h, check_lines, check_line, e) refl
