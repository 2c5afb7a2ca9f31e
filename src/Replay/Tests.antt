-- ===== src/Replay/Tests.antt =====
-- A replay up to the boundary of a ledger of one commit, after a second one was appended. The one
-- projection counts events.
use rationale_vault.Prelude.{ℕ, String, ◌+◌, ◌≡◌, ◌≢◌, refl, none, [], ◌∷◌, ok, text_discrete}
use rationale_vault.Prelude.Dict
use rationale_vault.Ledger.{
  Commit, Digests, decision_recorded, event_type_value, to_entry, check_sequences,
}
use rationale_vault.Ledger.Memory
use rationale_vault.Ledger.Memory.{MemoryLedger}
use rationale_vault.Ledger.Memory.Streams.{new_receipt, after}
use rationale_vault.Ledger.Memory.Append.{IsWellFormed, append-IsWellFormed, empty-IsWellFormed}
use rationale_vault.Replay.{Registry, compute_boundary, global_scope, replay, replay_to}
use rationale_vault.Replay.Boundary.{replay_to-append}

abbrev digests : Digests String String
digests = record { content_digest = λ e. "d1"; commit_digest = λ es. "d2"; to_iso8601 = λ t. t }

abbrev commit_of : String → ℕ → Commit String String
commit_of id n = record {
  commit_id = id;
  stream_id = "main";
  events =
      record {
        rvcj_version = 1;
        event_schema_version = 1;
        experience_id = "exp";
        event_type = decision_recorded;
        stream_id = "main";
        sequence = n;
        timestamp = "noon";
        actor = "claude";
        payload = "{}";
        correlation_id = none;
        causation_id = none;
      }
      ∷ [];
}

abbrev start : MemoryLedger String
start = Memory.empty

abbrev one : MemoryLedger String
one = after digests start (commit_of "c1" 1) (commit_of "c1" 1).events

abbrev two : MemoryLedger String
two = after digests one (commit_of "c2" 2) (commit_of "c2" 2).events

abbrev counts : Registry String ℕ
counts = record { reducers = ("count", (λ n e. ok (n + 1))) ∷ []; order = "count" ∷ [] }

program : Unit {0}
unfolding Memory.append Memory.append_events check_sequences to_entry event_type_value text_discrete
    Dict.get Dict.put Dict.has
program = tt

one-append :
    Memory.append digests start (commit_of "c1" 1)
    ≡ ok (new_receipt digests start (commit_of "c1" 1) (commit_of "c1" 1).events, one)
unfolding program
one-append = refl

two-append :
    Memory.append digests one (commit_of "c2" 2)
    ≡ ok (new_receipt digests one (commit_of "c2" 2) (commit_of "c2" 2).events, two)
unfolding program
two-append = refl

one-IsWellFormed : IsWellFormed one
one-IsWellFormed =
    append-IsWellFormed digests start (commit_of "c1" 1)
      (new_receipt digests start (commit_of "c1" 1) (commit_of "c1" 1).events) one
      empty-IsWellFormed one-append

some_there : one.entries ≢ []
some_there e = cc e

replay_to-append_example :
    replay_to 0 counts two (compute_boundary one.entries) "auto"
    ≡ replay 0 counts one global_scope "auto"
replay_to-append_example =
    replay_to-append digests 0 counts "auto" one (commit_of "c2" 2)
      (new_receipt digests one (commit_of "c2" 2) (commit_of "c2" 2).events) two one-IsWellFormed
      some_there two-append
