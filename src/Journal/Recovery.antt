-- ===== src/Journal/Recovery.antt =====
-- Reading back a journal that `append` has written.
use agent_crypto.Base.{
  ℕ, String, true, false, ◌≡◌, refl, sym, ◌∙◌, ap, Option, none, some, List, [], ◌∷◌, ◌++◌,
  text_eq_refl,
}
use agent_crypto.Journal.{
  Object, Format, FormatLaws, Journal, recovered, draft, chain_record, append, checked_hash,
  check_line, check_lines, item_of, is_item,
}
use mathlib.Core.List.{append_assoc, append-nil}
use agent_crypto.Journal.Lines.{newline, split_lines, split_lines-append, split_lines-nil}

is_item_refl : (t : Option String) → is_item t (item_of t) ≡ true
is_item_refl none = refl
is_item_refl (some s) = text_eq_refl s

module _ {P : Type 0} (f : Format P) (kind campaign_id : String) where
  -- The record that `_chain_record` gives passes the tests of `_recover_journal`, with its own digest.
  checked_hash-chain_record :
      (payload : P) (previous : Option String)
      → checked_hash f kind campaign_id
          (chain_record f kind campaign_id payload previous).0
          previous
        ≡ some (chain_record f kind campaign_id payload previous).1
  unfolding checked_hash chain_record draft
  checked_hash-chain_record payload previous =
      rw (text_eq_refl kind, text_eq_refl campaign_id, is_item_refl previous, text_eq_refl) refl

  -- The payloads appended one after the other.
  abbrev pub append_all : List P → Journal → Journal
  append_all [] j = j
  append_all (p ∷ ps) j = append_all ps (append f kind campaign_id p j)

  abbrev pub line_of : P → Option String → List ℕ
  line_of payload previous = f.render (chain_record f kind campaign_id payload previous).0

  -- What appending adds behind `whole`.
  pub append_all-file :
      (ps : List P) (whole : List ℕ) (head : Option String)
      → let j = append_all ps (record { file = whole; head = head }) in
        let tail = append_all ps (record { file = []; head = head }) in
        (j.file ≡ whole ++ tail.file) × (j.head ≡ tail.head)
  unfolding append
  append_all-file [] whole head = (sym (append-nil whole), refl)
  append_all-file (p ∷ ps) whole head =
      let line = line_of p head ++ newline ∷ [] in
      let next = some (chain_record f kind campaign_id p head).1 in
      let (file, head') = append_all-file ps (whole ++ line) next in
      let (file', head'') = append_all-file ps line next in
      (file ∙ append_assoc whole line _ ∙ ap (λ l. whole ++ l) (sym file'), head' ∙ sym head'')

  -- A line that holds a record with the right hash is passed over.
  check_line_passes :
      (line : List ℕ) (r : Object P) (previous : Option String) (stored : String) (day : Option ℕ)
      → f.parse line ≡ some r
      → checked_hash f kind campaign_id r previous ≡ some stored
      → check_line f kind campaign_id false line previous day ≡ recovered (some stored) day
  unfolding check_line
  check_line_passes line r previous stored day e h = rw (e, h, check_line) refl

  check_lines_passes :
      (line : List ℕ) (lines : List (List ℕ)) (previous next : Option String) (day : Option ℕ)
      → check_line f kind campaign_id false line previous day ≡ recovered next day
      → check_lines f kind campaign_id false (line ∷ lines) previous day
        ≡ check_lines f kind campaign_id false lines next day
  unfolding check_lines
  check_lines_passes line lines previous next day e = rw (e, check_lines) refl

  module _ (laws : FormatLaws f) where
    check_line-append :
        (p : P) (head : Option String) (day : Option ℕ)
        → check_line f kind campaign_id false (line_of p head) head day
          ≡ recovered (some (chain_record f kind campaign_id p head).1) day
    check_line-append p head day =
        check_line_passes (line_of p head) (chain_record f kind campaign_id p head).0 head
          (chain_record f kind campaign_id p head).1 day (laws.parse-render _)
          (checked_hash-chain_record p head)

    pub check_lines-append_all :
        (ps : List P) (head : Option String) (day : Option ℕ)
        → let j = append_all ps (record { file = []; head = head }) in
          check_lines f kind campaign_id false (split_lines j.file) head day ≡ recovered j.head day
    unfolding check_lines append
    check_lines-append_all [] head day = rw split_lines-nil refl
    check_lines-append_all (p ∷ ps) head day =
        let line = line_of p head in
        let next = some (chain_record f kind campaign_id p head).1 in
        let tail = append_all ps (record { file = []; head = next }) in
        let (file, head') = append_all-file ps (line ++ newline ∷ []) next in
        let inline = laws.render-IsInline (chain_record f kind campaign_id p head).0 in
        let split : split_lines (append_all (p ∷ ps) (record { file = []; head = head })).file
            ≡ line ∷ split_lines tail.file =
          ap split_lines (file ∙ append_assoc line (newline ∷ []) tail.file)
          ∙ split_lines-append line tail.file inline in
        ap (λ ls. check_lines f kind campaign_id false ls head day) split
        ∙ check_lines_passes line (split_lines tail.file) head next day
            (check_line-append p head day)
        ∙ check_lines-append_all ps next day
        ∙ ap (λ h. recovered h day) (sym head')
