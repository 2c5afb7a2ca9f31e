-- ===== src/CognitiveHead/Snapshot.antt =====
-- cognitive_head/snapshot.py and snapshot_policy.py, over the snapshot table of db/sqlite_store.py.
-- Among snapshots of one sequence the first one stored is the latest, as the index
-- `idx_snapshots_lookup` gives them. Warnings on stderr are not modelled.
use rationale_vault.Prelude.{
  ℕ, ◌+◌, String, Bool, true, false, not, Option, none, some, List, [], ◌∷◌, ◌++◌, ◌&&◌, ◌==◌, keep,
  length, leb, ltb, str_eq, if◌then◌else◌,
}
use rationale_vault.CognitiveHead.Payload.{
  PayloadBody, SnapshotPayload, PayloadDict, to_dict, from_dict, validate_hash, with_hash,
}
use mathlib.Core.Option

pub record SnapshotRow : Type 0 where
  pub project_id : String
  pub projection_name : String
  pub sequence : ℕ
  pub payload : PayloadDict
  pub schema_version : ℕ
  pub projection_version : ℕ
  pub snapshot_hash : String

abbrev pub SnapshotTable : Type 0
SnapshotTable = List SnapshotRow

abbrev pub matches : String → String → SnapshotRow → Bool
matches project_id projection_name row =
    str_eq row.project_id project_id && str_eq row.projection_name projection_name

-- `ORDER BY sequence DESC LIMIT 1`
unfoldable pub latest_row : List SnapshotRow → Option SnapshotRow
latest_row [] = none
latest_row (r ∷ rows) = elim (latest_row rows) [
  | none ↦ some r
  | some s ↦ if ltb r.sequence s.sequence then some s else some r
]

-- The manager reads only the payload of the row.
unfoldable pub load_latest_raw : SnapshotTable → String → String → Option PayloadDict
load_latest_raw table project_id projection_name =
    Option.map (λ r. r.payload) (latest_row (keep (matches project_id projection_name) table))

unfoldable pub get_latest_snapshot_sequence : SnapshotTable → String → String → Option ℕ
get_latest_snapshot_sequence table project_id projection_name =
    Option.map (λ r. r.sequence) (latest_row (keep (matches project_id projection_name) table))

unfoldable pub save_snapshot : SnapshotTable → String → String → SnapshotPayload → SnapshotTable
save_snapshot table project_id projection_name payload =
    table
    ++ record {
      project_id = project_id;
      projection_name = projection_name;
      sequence = payload.body.sequence;
      payload = to_dict true payload;
      schema_version = payload.body.schema_version;
      projection_version = payload.body.projection_version;
      snapshot_hash = payload.snapshot_hash;
    }
      ∷ []

abbrev pub is_before : String → String → ℕ → SnapshotRow → Bool
is_before project_id projection_name sequence row =
    matches project_id projection_name row && ltb row.sequence sequence

-- The table that is left, and the count of the rows deleted.
unfoldable pub delete_snapshots_before : SnapshotTable → String → String → ℕ → SnapshotTable × ℕ
delete_snapshots_before table project_id projection_name sequence = (
  keep (λ row. not (is_before project_id projection_name sequence row)) table,
  length (keep (is_before project_id projection_name sequence) table),
)

pub data SnapshotValidationReason : Type 0 where
  not_found hash_mismatch schema_version projection_version : SnapshotValidationReason
  future_sequence deserialization : SnapshotValidationReason

pub record SnapshotValidationResult : Type 0 where
  pub valid : Bool
  pub payload : Option SnapshotPayload
  pub reason : Option SnapshotValidationReason

abbrev pub rejected : SnapshotValidationReason → SnapshotValidationResult
rejected reason = record { valid = false; payload = none; reason = some reason }

abbrev pub accepted : SnapshotPayload → SnapshotValidationResult
accepted payload = record { valid = true; payload = some payload; reason = none }

-- The checks on a payload that was read; a dict that `to_dict` wrote is always deserialized.
unfoldable pub validate : (PayloadBody → String) → SnapshotPayload → ℕ → SnapshotValidationResult
validate digest payload latest_seq =
    if not (validate_hash digest payload)
    then rejected hash_mismatch
    else if not (payload.body.schema_version == 1)
    then rejected schema_version
    else if not (payload.body.projection_version == 1)
    then rejected projection_version
    else if ltb latest_seq payload.body.sequence
    then rejected future_sequence
    else accepted payload

-- `SnapshotManager.load_valid_snapshot`; `latest_seq` is what `get_latest_sequence_fn` gives.
unfoldable pub load_valid_snapshot :
    (PayloadBody → String) → SnapshotTable → String → String → ℕ → SnapshotValidationResult
load_valid_snapshot digest table project_id projection_name latest_seq =
    elim (load_latest_raw table project_id projection_name) [
      | none ↦ rejected not_found
      | some raw ↦
          if str_eq projection_name "cognitive_head"
          then validate digest (from_dict raw) latest_seq
          else rejected deserialization
    ]

-- `NullSnapshotManager.load_valid_snapshot`
abbrev pub load_nothing : SnapshotValidationResult
load_nothing = rejected not_found

-- `EventCountPolicy.should_snapshot`
unfoldable pub should_snapshot : ℕ → ℕ → Option ℕ → Bool
should_snapshot threshold current_sequence none = true
should_snapshot threshold current_sequence (some last) = leb (last + threshold) current_sequence

-- `SnapshotManager.refresh_snapshot`
unfoldable pub refresh_snapshot :
    (PayloadBody → String)
    → ℕ
    → SnapshotTable
    → String
    → String
    → SnapshotPayload
    → ℕ
    → SnapshotTable
refresh_snapshot digest threshold table project_id projection_name head current_sequence =
    if should_snapshot threshold current_sequence
      (get_latest_snapshot_sequence table project_id projection_name)
    then save_snapshot table project_id projection_name (with_hash digest head)
    else table
