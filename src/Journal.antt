-- ===== src/Journal.antt =====
-- The hash-chained journals of `SupervisorStateStore` in src/crypto_agent/campaign_supervisor.py.
--
-- A journal is a file of bytes, one line for each record. JSON and SHA-256 are parameters: `Format`
-- gives the bytes of an object, the object that bytes hold, and the digest of an object.
pub mod Lines
pub mod Recovery
pub mod Torn
use agent_crypto.Base.{
  ℕ, String, Bool, true, false, ◌&&◌, ◌||◌, not, ◌≡◌, ◌≢◌, Option, none, some, List, [], ◌∷◌, ◌++◌,
  All, is_empty, text_eq, ◌==◌, if◌then◌else◌,
}
use Lines.{split_lines, cut_last_line, ends_in_newline, newline, IsInline}

-- An item of a JSON object: missing or null, a text, or something else.
pub data Item : Type 0 where
  missing : Item
  written : String → Item
  strange : Item

-- A JSON object with the keys that the journal reads; `rest` stands for its other items.
pub record Object (P : Type 0) : Type 0 where
  pub kind : Item
  pub campaign_id : Item
  pub previous_hash : Item
  pub content_hash : Item
  pub rest : P

pub record Format (P : Type 0) : Type 0 where
  -- `_canonical_json`
  pub render : Object P → List ℕ
  -- `json.loads`, where it gives an object.
  pub parse : List ℕ → Option (Object P)
  -- `hashlib.sha256(_canonical_json(record)).hexdigest()`
  pub digest : Object P → String
  -- `date.fromisoformat(record["payload"]["snapshot_date"])`, as a day number.
  pub day : P → Option ℕ

-- What the code relies on of `json`: an object is read back as it was written, and its text holds no
-- line break, since JSON escapes control characters.
pub record FormatLaws {P : Type 0} (f : Format P) : Type 0 where
  pub parse-render : (r : Object P) → f.parse (f.render r) ≡ some r
  pub render-IsInline : (r : Object P) → IsInline (f.render r)
  -- The text of an object starts with a brace.
  pub render-ne : (r : Object P) → f.render r ≢ []

abbrev pub item_of : Option String → Item
item_of none = missing
item_of (some s) = written s

abbrev is_item : Option String → Item → Bool
is_item none missing = true
is_item (some s) (written t) = text_eq s t
is_item _ _ = false

-- The outcome of `_recover_journal`: the last hash and the last snapshot day, or
-- CampaignSupervisorError with the code SUPERVISOR_JOURNAL_INVALID.
pub data Recovered : Type 0 where
  recovered : Option String → Option ℕ → Recovered
  journal_invalid : Recovered

pub record Journal : Type 0 where
  pub file : List ℕ
  pub head : Option String

module _ {P : Type 0} (f : Format P) (kind campaign_id : String) where
  -- `_chain_record`: the record with its own digest.
  pub draft : P → Option String → Object P
  draft payload previous = record {
    kind = written kind;
    campaign_id = written campaign_id;
    previous_hash = item_of previous;
    content_hash = missing;
    rest = payload;
  }

  pub chain_record : P → Option String → Object P × String
  unfolding draft
  chain_record payload previous =
      let r = draft payload previous in
      let digest = f.digest r in (record r { content_hash = written digest }, digest)

  -- `append_event`, `append_daily_snapshot`
  pub append : P → Journal → Journal
  unfolding chain_record
  append payload j =
      let (r, digest) = chain_record payload j.head in
      record { file = j.file ++ (f.render r ++ newline ∷ []); head = some digest }

  -- `record.pop("content_hash_sha256", None)` and the tests on what is left.
  pub checked_hash : Object P → Option String → Option String
  checked_hash r previous = elim r.content_hash [
    | written stored ↦
        if is_item (some kind) r.kind
          && (is_item (some campaign_id) r.campaign_id
              && (is_item previous r.previous_hash
                  && text_eq (f.digest (record r { content_hash = missing })) stored))
        then some stored
        else none
    | _ ↦ none
  ]

  -- The tests on one line: the hash to go on with and the day to keep.
  pub check_line : Bool → List ℕ → Option String → Option ℕ → Recovered
  unfolding checked_hash
  check_line is_snapshot line previous day = elim (f.parse line) [
    | none ↦ journal_invalid
    | some r ↦ elim (checked_hash r previous) [
      | none ↦ journal_invalid
      | some stored ↦ if not is_snapshot then recovered (some stored) day else elim (f.day r.rest) [
        | none ↦ journal_invalid
        | some d ↦ recovered (some stored) (some d)
      ]
    ]
  ]

  pub check_lines : Bool → List (List ℕ) → Option String → Option ℕ → Recovered
  unfolding check_line
  check_lines is_snapshot [] previous day = recovered previous day
  check_lines is_snapshot (line ∷ lines) previous day =
      elim (check_line is_snapshot line previous day) [
        | journal_invalid ↦ journal_invalid
        | recovered previous' day' ↦ check_lines is_snapshot lines previous' day'
      ]

  -- What the file is cut back to: `data.rsplit(b"\n", 1)[0]` is the whole of data without a newline.
  pub mended : List ℕ → List ℕ
  unfolding cut_last_line ends_in_newline
  mended file =
      let committed = cut_last_line file in
      if is_empty file || ends_in_newline file
      then file
      else if is_empty committed
      then []
      else committed ++ newline ∷ []

  -- `_recover_journal` of a file that exists: the outcome, and the file that it leaves.
  unfoldable pub recover_journal : List ℕ → Recovered × List ℕ
  unfolding mended check_lines split_lines append
  recover_journal file =
      (check_lines (text_eq kind "snapshot") (split_lines (mended file)) none none, mended file)
