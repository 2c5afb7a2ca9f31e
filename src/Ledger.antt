-- ===== src/Ledger.antt =====
-- The values that a ledger stores: canonical/types.py, canonical/envelope.py, ledger/commit.py and
-- ledger/entry.py. The type `P` of payloads and the type `T` of timestamps stay abstract: the
-- ledger passes both on and never looks inside. What SHA-256 and the canonical JSON text give is
-- the parameter `Digests`.
pub mod Memory
pub mod Sqlite
pub mod Refinement
pub mod Build
mod Tests
use Prim.Native.String.{slice, ◌++◌ as str_append}
use rationale_vault.Prelude.{
  ℕ, String, ◌≡◌, Bool, true, false, Option, none, some, List, [], ◌∷◌, Result, ok, raise,
  value_error, ltb, ◌==◌, zero, suc, length, str_eq, if◌then◌else◌,
}

pub data EventType : Type 0 where
  decision_recorded evaluation_recorded knowledge_updated experience_recorded : EventType
  outcome_observed : EventType

pub record Envelope (P T : Type 0) : Type 0 where
  pub rvcj_version : ℕ
  pub event_schema_version : ℕ
  pub experience_id : String
  pub event_type : EventType
  pub stream_id : String
  pub sequence : ℕ
  pub timestamp : T
  pub actor : String
  pub payload : P
  pub correlation_id : Option String
  pub causation_id : Option String

pub record Commit (P T : Type 0) : Type 0 where
  pub commit_id : String
  pub stream_id : String
  pub events : List (Envelope P T)

pub record CommitReceipt : Type 0 where
  pub commit_id : String
  pub stream_id : String
  pub sequence_start : ℕ
  pub sequence_end : ℕ
  pub global_order : ℕ

-- `payload` is the type in which a backend keeps a payload.
pub record LedgerEntry (P : Type 0) : Type 0 where
  pub stream_id : String
  pub sequence : ℕ
  pub commit_id : String
  pub event_id : String
  pub rvcj_version : ℕ
  pub event_schema_version : ℕ
  pub event_type : String
  pub timestamp : String
  pub payload : P
  pub global_order : ℕ

-- What the ledger uses of code outside the repository: `content_digest` and `commit_digest` are
-- the hexadecimal SHA-256 of the canonical JSON of one envelope and of a list, `to_iso8601` the
-- text of a timestamp.
pub record Digests (P T : Type 0) : Type 0 where
  pub content_digest : Envelope P T → String
  pub commit_digest : List (Envelope P T) → String
  pub to_iso8601 : T → String

-- `EventType.value`
unfoldable pub event_type_value : EventType → String
event_type_value decision_recorded = "decision_recorded"
event_type_value evaluation_recorded = "evaluation_recorded"
event_type_value knowledge_updated = "knowledge_updated"
event_type_value experience_recorded = "experience_recorded"
event_type_value outcome_observed = "outcome_observed"

-- A set of texts, as the list of its members: `s.add(x)`.
unfoldable pub add_text : String → List String → List String
add_text x [] = x ∷ []
add_text x (y ∷ s) = if str_eq y x then y ∷ s else y ∷ add_text x s

module _ {P T : Type 0} where
  -- `{e.experience_id for e in events}`
  unfoldable pub experience_ids : List (Envelope P T) → List String
  experience_ids [] = []
  experience_ids (e ∷ es) = add_text e.experience_id (experience_ids es)

  -- `CommitBuilder.from_events`
  unfoldable pub from_events : Digests P T → String → List (Envelope P T) → Result (Commit P T)
  from_events digests stream_id [] = raise value_error
  from_events digests stream_id (e ∷ es) =
      if ltb 1 (length (experience_ids (e ∷ es)))
      then raise value_error
      else ok (record {
        commit_id = digests.commit_digest (e ∷ es);
        stream_id = stream_id;
        events = e ∷ es;
      })

  -- The entry that both backends write for one event of a commit.
  unfoldable pub to_entry :
      {Q : Type 0} → Digests P T → (P → Q) → Commit P T → ℕ → Envelope P T → LedgerEntry Q
  to_entry digests store_payload commit global_order event = record {
    stream_id = commit.stream_id;
    sequence = event.sequence;
    commit_id = commit.commit_id;
    event_id = str_append "EVT-" (slice (digests.content_digest event) 0 12);
    rvcj_version = event.rvcj_version;
    event_schema_version = event.event_schema_version;
    event_type = event_type_value event.event_type;
    timestamp = digests.to_iso8601 event.timestamp;
    payload = store_payload event.payload;
    global_order = global_order;
  }

  -- The loop that both backends run before they write: the sequences go up by one from `expected`.
  unfoldable pub check_sequences : ℕ → List (Envelope P T) → Result (Unit {0})
  check_sequences expected [] = ok tt
  check_sequences expected (e ∷ es) = elim (e.sequence == expected) [
    | true ↦ check_sequences (suc expected) es
    | false ↦ raise value_error
  ]

-- Sequence numbers that go up by one from `start`, `n` of them.
abbrev pub count_up : ℕ → ℕ → List ℕ
count_up start zero = []
count_up start (suc n) = start ∷ count_up (suc start) n
