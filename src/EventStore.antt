-- ===== src/EventStore.antt =====
-- db/sqlite_store.py: the event table. Rows stand in the order of insertion, which is that of
-- `event_sequence`; AUTOINCREMENT gives one more than the greatest sequence ever used. The UUID and
-- the time of an event are arguments. A raise rolls the transaction back.
pub mod Streams
pub mod Versions
use mathlib.Core.Option.{get_or}
use rationale_vault.Prelude.{
  ℕ, ◌+◌, String, Bool, true, false, Option, none, some, List, [], ◌∷◌, ◌++◌, ◌&&◌, map, Result, ok,
  raise, integrity_error, keep, some_of, length, ltb, str_eq, text_discrete, max_of, order_by,
  if◌then◌else◌,
}
use rationale_vault.Prelude.Dict
use rationale_vault.Value.{Value, Payload, num, pos, lookup_or}
use rationale_vault.Events.{EventType, EventMetadata, EventRecord}

pub record EventTable : Type 0 where
  pub rows : List EventRecord
  pub last_sequence : ℕ

abbrev pub no_events : EventTable
no_events = record { rows = []; last_sequence = 0 }

abbrev pub of_project : String → EventRecord → Bool
of_project project_id e = str_eq e.project_id project_id

-- `SELECT COALESCE(MAX(version), 0) + 1 … WHERE project_id = ?`
unfoldable pub next_version : List EventRecord → String → ℕ
next_version rows project_id =
    get_or (max_of (map (λ e. e.version) (keep (of_project project_id) rows))) 0 + 1

-- `payload.get("schema_version", 1)`
unfoldable pub schema_version_of : Payload → Value
schema_version_of payload = lookup_or payload "schema_version" (num (pos 1))

-- The record that is inserted and returned.
abbrev pub new_event :
    EventTable
    → String
    → String
    → EventType
    → Payload
    → EventMetadata
    → Option String
    → String
    → String
    → EventRecord
new_event table project_id stream_id event_type payload metadata parent_id event_id recorded_at =
    record {
      event_sequence = table.last_sequence + 1;
      id = event_id;
      project_id = project_id;
      stream_id = stream_id;
      version = next_version table.rows project_id;
      event_type = event_type;
      metadata = metadata;
      payload = payload;
      parent_id = parent_id;
      recorded_at = some recorded_at;
      schema_version = schema_version_of payload;
    }

abbrev pub insert_event : EventTable → EventRecord → EventTable
insert_event table event = record {
  rows = table.rows ++ event ∷ [];
  last_sequence = table.last_sequence + 1;
}

unfoldable pub append_event :
    EventTable
    → String
    → String
    → EventType
    → Payload
    → EventMetadata
    → Option String
    → String
    → String
    → Result (EventRecord × EventTable)
append_event table project_id stream_id event_type payload metadata parent_id event_id recorded_at =
    let event =
      new_event table project_id stream_id event_type payload metadata parent_id event_id
        recorded_at in
    if some_of (λ e. str_eq e.id event_id) table.rows
    then raise integrity_error
    else ok (event, insert_event table event)

abbrev pub since : String → ℕ → EventRecord → Bool
since project_id since_sequence e = of_project project_id e && ltb since_sequence e.event_sequence

-- `get_project_stream`, and `replay_stream`, which gives the same records one by one
unfoldable pub get_project_stream : EventTable → String → ℕ → List EventRecord
get_project_stream table project_id since_sequence =
    order_by (λ e. e.event_sequence) (keep (since project_id since_sequence) table.rows)

unfoldable pub get_stream : EventTable → String → String → ℕ → List EventRecord
get_stream table project_id stream_id since_sequence =
    order_by (λ e. e.event_sequence)
      (keep (λ e. since project_id since_sequence e && str_eq e.stream_id stream_id) table.rows)

unfoldable pub get_event_count : EventTable → String → ℕ
get_event_count table project_id = length (keep (of_project project_id) table.rows)

-- `SELECT COALESCE(MAX(event_sequence), 0) … WHERE project_id = ?`
unfoldable pub get_latest_sequence : EventTable → String → ℕ
get_latest_sequence table project_id =
    get_or (max_of (map (λ e. e.event_sequence) (keep (of_project project_id) table.rows))) 0
