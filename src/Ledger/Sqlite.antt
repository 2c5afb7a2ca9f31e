-- ===== src/Ledger/Sqlite.antt =====
-- ledger/storage/sqlite.py: the production backend. A table is its rows in the order of insertion
-- (the rowid), a row a `LedgerEntry` whose payload is JSON text. Rows that `ORDER BY` does not tell
-- apart stay in rowid order, as SQLite's index on `global_order` gives them. A raise inside the
-- transaction rolls it back, so the table is as before.
pub mod Order
use mathlib.Core.List.{head?}
use mathlib.Core.Option.{get_or}
use rationale_vault.Prelude.{
  order_by, max_of, ℕ, ◌+◌, ◌-◌, String, Bool, true, false, Option, none, some, List, [], ◌∷◌, ◌++◌,
  map, Result, ok, raise, index_error, type_error, integrity_error, ◌>>=◌, ◌>>◌, ◌&&◌, ◌==◌, leb,
  length, keep, some_of, str_eq,
}
use rationale_vault.Ledger.{
  Envelope, Commit, CommitReceipt, LedgerEntry, Digests, to_entry, check_sequences,
}

abbrev pub Row : Type 0
Row = LedgerEntry String

pub record SqliteLedger : Type 0 where
  pub rows : List Row

-- The table that `SCHEMA` creates.
abbrev pub empty : SqliteLedger
empty = record { rows = [] }

-- `SELECT … WHERE commit_id = ?` and `… WHERE stream_id = ?`
abbrev pub rows_of_commit : List Row → String → List Row
rows_of_commit rows commit_id = keep (λ r. str_eq r.commit_id commit_id) rows

abbrev pub rows_of_stream : List Row → String → List Row
rows_of_stream rows stream_id = keep (λ r. str_eq r.stream_id stream_id) rows

-- The receipt of a commit that is stored, from its rows.
unfoldable pub stored_receipt : String → List Row → Result CommitReceipt
stored_receipt commit_id rows = elim (head? (order_by (λ r. r.sequence) rows)) [
  | none ↦ raise type_error
  | some existing ↦ elim (max_of (map (λ r. r.sequence) rows)) [
    | none ↦ raise type_error
    | some last ↦ ok (record {
      commit_id = commit_id;
      stream_id = existing.stream_id;
      sequence_start = existing.sequence;
      sequence_end = last;
      global_order = existing.global_order;
    })
  ]
]

-- `SELECT MAX(sequence) … WHERE stream_id = ?`, and `or 0`
unfoldable pub last_sequence : List Row → String → ℕ
last_sequence rows stream_id =
    get_or (max_of (map (λ r. r.sequence) (rows_of_stream rows stream_id))) 0

-- `SELECT COALESCE(MAX(global_order), -1)`, and `+ 1`
unfoldable pub next_order : List Row → ℕ
next_order rows = elim (max_of (map (λ r. r.global_order) rows)) [ none ↦ 0 | some m ↦ m + 1 ]

-- `INSERT INTO ledger_entries`: the primary key is (stream_id, sequence).
abbrev pub same_key : Row → Row → Bool
same_key a b = str_eq a.stream_id b.stream_id && (a.sequence == b.sequence)

unfoldable pub insert : Row → List Row → Result (List Row)
insert row rows = elim (some_of (λ r. same_key r row) rows) [
  | true ↦ raise integrity_error
  | false ↦ ok (rows ++ row ∷ [])
]

module _ {P T : Type 0} (digests : Digests P T) (dumps : P → String) where
  unfoldable pub insert_events : Commit P T → ℕ → List (Envelope P T) → List Row → Result (List Row)
  insert_events commit global_order [] rows = ok rows
  insert_events commit global_order (e ∷ es) rows = do
    rows' ← insert (to_entry digests dumps commit global_order e) rows
    insert_events commit global_order es rows'

  -- The transaction; `commit.events[0]` raises where there is no event.
  unfoldable pub write_events :
      SqliteLedger → Commit P T → List (Envelope P T) → Result (CommitReceipt × SqliteLedger)
  write_events ledger commit [] = raise index_error
  write_events ledger commit (first ∷ rest) = do
    let events = first ∷ rest
    let global_order = next_order ledger.rows
    rows ← insert_events commit global_order events ledger.rows
    ok (
      record {
        commit_id = commit.commit_id;
        stream_id = commit.stream_id;
        sequence_start = first.sequence;
        sequence_end = first.sequence + length events - 1;
        global_order = global_order;
      },
      record { rows = rows },
    )

  unfoldable pub append : SqliteLedger → Commit P T → Result (CommitReceipt × SqliteLedger)
  append ledger commit = elim (head? (rows_of_commit ledger.rows commit.commit_id)) [
    | some _ ↦ do
      receipt ← stored_receipt commit.commit_id (rows_of_commit ledger.rows commit.commit_id)
      ok (receipt, ledger)
    | none ↦ do
      check_sequences (last_sequence ledger.rows commit.stream_id + 1) commit.events
      write_events ledger commit commit.events
  ]

module _ {P : Type 0} (loads : String → P) where
  unfoldable pub row_to_entry : Row → LedgerEntry P
  row_to_entry row = record {
    stream_id = row.stream_id;
    sequence = row.sequence;
    commit_id = row.commit_id;
    event_id = row.event_id;
    rvcj_version = row.rvcj_version;
    event_schema_version = row.event_schema_version;
    event_type = row.event_type;
    timestamp = row.timestamp;
    payload = loads row.payload;
    global_order = row.global_order;
  }

  unfoldable pub read_stream : SqliteLedger → String → List (LedgerEntry P)
  read_stream ledger stream_id =
      map row_to_entry (order_by (λ r. r.sequence) (rows_of_stream ledger.rows stream_id))

  unfoldable pub read_from : SqliteLedger → ℕ → List (LedgerEntry P)
  read_from ledger global_order =
      map row_to_entry
        (order_by (λ r. r.global_order) (keep (λ r. leb global_order r.global_order) ledger.rows))

abbrev pub is_row : Option Row → Bool
is_row none = false
is_row (some _) = true

unfoldable pub exists : SqliteLedger → String → Bool
exists ledger commit_id = is_row (head? (rows_of_commit ledger.rows commit_id))

unfoldable pub stream_exists : SqliteLedger → String → Bool
stream_exists ledger stream_id = is_row (head? (rows_of_stream ledger.rows stream_id))
