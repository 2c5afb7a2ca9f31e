-- ===== src/Ledger/Memory.antt =====
-- ledger/storage/memory.py: the in-memory reference backend. `append` returns the receipt with the
-- new state; every check stands before the first write, so a call that raises changes nothing. The
-- digests are total functions: where computing the digest of a later event raises, Python has already
-- written the entries before it, and that partial write is outside the model.
pub mod Streams
pub mod Append
use rationale_vault.Prelude.{
  ℕ, ◌+◌, ◌-◌, String, Bool, none, some, List, [], ◌∷◌, ◌++◌, map, Result, ok, raise, index_error,
  ◌>>◌, leb, length, keep, some_of, str_eq, text_discrete,
}
use mathlib.Core.Option.{get_or}
use rationale_vault.Prelude.Dict
use rationale_vault.Prelude.Dict.{Dict}
use rationale_vault.Ledger.{
  Envelope, Commit, CommitReceipt, LedgerEntry, Digests, to_entry, check_sequences,
}

pub record MemoryLedger (P : Type 0) : Type 0 where
  pub entries : List (LedgerEntry P)
  pub commits : Dict String CommitReceipt
  pub stream_sequences : Dict String ℕ
  pub next_global_order : ℕ

-- `MemoryLedger()`
abbrev pub empty : {P : Type 0} → MemoryLedger P
empty = record { entries = []; commits = []; stream_sequences = []; next_global_order = 0 }

-- `self._stream_sequences.get(stream_id, 0)`
abbrev pub current_sequence : {P : Type 0} → MemoryLedger P → String → ℕ
current_sequence ledger stream_id =
    get_or (Dict.get text_discrete stream_id ledger.stream_sequences) 0

module _ {P T : Type 0} (digests : Digests P T) where
  -- The part of `append` behind the test for a known commit; `events` is `commit.events`.
  unfoldable pub append_events :
      MemoryLedger P → Commit P T → List (Envelope P T) → Result (CommitReceipt × MemoryLedger P)
  append_events ledger commit [] = raise index_error
  append_events ledger commit (first ∷ rest) = do
    let events = first ∷ rest
    let current_seq = current_sequence ledger commit.stream_id
    check_sequences (current_seq + 1) events
    let global_order = ledger.next_global_order
    let sequence_end = first.sequence + length events - 1
    let receipt : CommitReceipt = record {
      commit_id = commit.commit_id;
      stream_id = commit.stream_id;
      sequence_start = first.sequence;
      sequence_end = sequence_end;
      global_order = global_order;
    }
    ok (
      receipt,
      record {
        entries =
            ledger.entries
            ++ map (to_entry digests (λ payload. payload) commit global_order) events;
        commits = Dict.put text_discrete commit.commit_id receipt ledger.commits;
        stream_sequences =
            Dict.put text_discrete commit.stream_id sequence_end ledger.stream_sequences;
        next_global_order = global_order + 1;
      },
    )

  unfoldable pub append : MemoryLedger P → Commit P T → Result (CommitReceipt × MemoryLedger P)
  append ledger commit = elim (Dict.get text_discrete commit.commit_id ledger.commits) [
    | some receipt ↦ ok (receipt, ledger)
    | none ↦ append_events ledger commit commit.events
  ]

module _ {P : Type 0} where
  unfoldable pub read_stream : MemoryLedger P → String → List (LedgerEntry P)
  read_stream ledger stream_id = keep (λ e. str_eq e.stream_id stream_id) ledger.entries

  unfoldable pub read_from : MemoryLedger P → ℕ → List (LedgerEntry P)
  read_from ledger global_order = keep (λ e. leb global_order e.global_order) ledger.entries

  unfoldable pub exists : MemoryLedger P → String → Bool
  exists ledger commit_id = Dict.has text_discrete commit_id ledger.commits

  unfoldable pub stream_exists : MemoryLedger P → String → Bool
  stream_exists ledger stream_id = some_of (λ e. str_eq e.stream_id stream_id) ledger.entries
