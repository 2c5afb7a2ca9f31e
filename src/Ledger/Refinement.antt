-- ===== src/Ledger/Refinement.antt =====
-- The SQLite backend against the in-memory one: the relation between their states.
pub mod Writes
pub mod Runs
use mathlib.Core.List.{map-map, head?}
use mathlib.Core.Option.{get_or}
use rationale_vault.Prelude.{
  order_by, order_by-eq_self, max_of, ℕ, zero, suc, ◌+◌, ◌<◌, ◌≤◌, String, ◌≡◌, refl, sym, ap, ◌∙◌,
  ◌≢◌, Option, none, some, List, [], ◌∷◌, map, Result, ok, arith, leb, length, keep, keep-map, Bool,
  true, false, some_of, some_of-map, All, All-of_map, All-imp, All-of_keep, IsAscending,
  IsAscending-of_map, IsAscending-keep, str_eq, text_discrete,
}
use rationale_vault.Prelude.Dict
use rationale_vault.Ledger.{CommitReceipt, LedgerEntry, count_up}
use rationale_vault.Ledger.Memory
use rationale_vault.Ledger.Memory.{MemoryLedger, current_sequence}
use rationale_vault.Ledger.Memory.Streams.{IsContiguous}
use rationale_vault.Ledger.Memory.Append.{IsWellFormed}
use rationale_vault.Ledger.Sqlite
use rationale_vault.Ledger.Sqlite.{
  Row, SqliteLedger, rows_of_commit, rows_of_stream, stored_receipt, last_sequence, next_order,
  row_to_entry, is_row,
}
use rationale_vault.Ledger.Sqlite.Order.{max_of-count_up_one, All-count_up, IsAscending-count_up}

-- The rows of a commit give the receipt that the in-memory ledger remembers.
abbrev pub StoredAs : String → Option CommitReceipt → List Row → Type 0
StoredAs commit_id none rows = rows ≡ []
StoredAs commit_id (some receipt) rows = (rows ≢ []) × (stored_receipt commit_id rows ≡ ok receipt)

pub record Refines {P : Type 0} (loads : String → P) (m : MemoryLedger P) (t : SqliteLedger)
    : Type 0 where
  pub entries : map (row_to_entry loads) t.rows ≡ m.entries
  pub receipts :
      (commit_id : String)
      → StoredAs commit_id
          (Dict.get text_discrete commit_id m.commits)
          (rows_of_commit t.rows commit_id)
  pub next : next_order t.rows ≡ m.next_global_order

module _ {P : Type 0} {loads : String → P} {m : MemoryLedger P} {t : SqliteLedger}
    (r : Refines loads m t) where
  stream_rows :
      (s : String) → map (row_to_entry loads) (rows_of_stream t.rows s) ≡ Memory.read_stream m s
  unfolding Memory.read_stream row_to_entry
  stream_rows s =
      sym (keep-map (λ e. str_eq e.stream_id s) (row_to_entry loads) t.rows)
      ∙ ap (keep (λ e. str_eq e.stream_id s)) r.entries

  module _ (contiguous : IsContiguous m) where
    stream_sequences :
        (s : String)
        → map (λ e. e.sequence) (rows_of_stream t.rows s) ≡ count_up 1 (current_sequence m s)
    unfolding row_to_entry
    stream_sequences s =
        sym (map-map _ (row_to_entry loads) (rows_of_stream t.rows s))
        ∙ ap (map (λ e. e.sequence)) (stream_rows s)
        ∙ contiguous s

    pub last_sequence-eq : (s : String) → last_sequence t.rows s ≡ current_sequence m s
    unfolding last_sequence
    last_sequence-eq s = rw (stream_sequences s) (max_of-count_up_one _)

    -- The rows of a stream lie below its next sequence.
    pub rows_below :
        (s : String)
        → All (λ e. str_eq e.stream_id s ≡ true → e.sequence < current_sequence m s + 1) t.rows
    rows_below s = All-of_keep _ _ t.rows (
        All-of_map _ (λ e. e.sequence) _
          (rw (stream_sequences s)
            (All-count_up 1 (current_sequence m s) (current_sequence m s + 1) (omega arith))))

    in_order : (s : String) → IsAscending (λ e. e.sequence) (rows_of_stream t.rows s)
    in_order s =
        IsAscending-of_map (λ k. k) (λ e. e.sequence) _
          (rw (stream_sequences s) (IsAscending-count_up 1 (current_sequence m s)))

    pub read_stream-eq : (s : String) → Sqlite.read_stream loads t s ≡ Memory.read_stream m s
    unfolding Sqlite.read_stream
    read_stream-eq s =
        rw (order_by-eq_self _ (rows_of_stream t.rows s) (in_order s)) (stream_rows s)

  pub orders_below : IsWellFormed m → All (λ e. e.global_order < m.next_global_order) t.rows
  unfolding row_to_entry
  orders_below v =
      All-of_map (λ e. e.global_order < m.next_global_order) (row_to_entry loads) t.rows
        (rw r.entries v.below_next)

  rows-IsAscending : IsWellFormed m → IsAscending (λ e. e.global_order) t.rows
  unfolding row_to_entry
  rows-IsAscending v =
      IsAscending-of_map (λ e. e.global_order) (row_to_entry loads) t.rows
        (rw r.entries v.ascending)

  pub read_from-eq : IsWellFormed m → (n : ℕ) → Sqlite.read_from loads t n ≡ Memory.read_from m n
  unfolding Sqlite.read_from Memory.read_from row_to_entry
  read_from-eq v n =
      rw
        (order_by-eq_self _ _
          (IsAscending-keep _ (λ e. leb n e.global_order) t.rows (rows-IsAscending v)))
        (sym (keep-map (λ e. leb n e.global_order) (row_to_entry loads) t.rows)
          ∙ ap (keep (λ e. leb n e.global_order)) r.entries)

  pub exists-eq : (commit_id : String) → Sqlite.exists t commit_id ≡ Memory.exists m commit_id
  unfolding Sqlite.exists Memory.exists Dict.has
  exists-eq commit_id =
      exists_as (Dict.get text_discrete commit_id m.commits) (rows_of_commit t.rows commit_id)
        (r.receipts commit_id)
    where
      exists_as :
          (o : Option CommitReceipt) (rows : List Row)
          → StoredAs commit_id o rows
          → is_row (head? rows) ≡ elim o [ none ↦ false | some _ ↦ true ]
      exists_as none [] h = refl
      exists_as none (row ∷ rows) h = cc h
      exists_as (some x) [] h = absurd (h.0 refl)
      exists_as (some x) (row ∷ rows) h = refl

  some_of-rows : (p : Row → Bool) (rows : List Row) → is_row (head? (keep p rows)) ≡ some_of p rows
  some_of-rows p [] = refl
  some_of-rows p (x ∷ xs) = ground (arith, some_of-rows p xs)

  pub stream_exists-eq : (s : String) → Sqlite.stream_exists t s ≡ Memory.stream_exists m s
  unfolding Sqlite.stream_exists Memory.stream_exists row_to_entry
  stream_exists-eq s =
      some_of-rows (λ e. str_eq e.stream_id s) t.rows
      ∙ sym (some_of-map (λ e. str_eq e.stream_id s) (row_to_entry loads) t.rows)
      ∙ ap (some_of (λ e. str_eq e.stream_id s)) r.entries
