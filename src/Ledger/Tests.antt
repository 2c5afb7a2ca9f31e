-- ===== src/Ledger/Tests.antt =====
-- Runs of both ledger backends, and the theorems of the ledger at concrete commits. Payloads and
-- timestamps are texts here, and a digest is the name of the actor or of the experience.
use rationale_vault.Prelude.{
  order_by, max_of, ℕ, String, ◌≡◌, refl, ◌⊎◌, ◌≢◌, none, [], ◌∷◌, ok, raise, true, value_error,
  text_discrete, str_eq, if◌then◌else◌, ◌++◌,
}
use rationale_vault.Prelude.Dict
use rationale_vault.Ledger.{
  Envelope, Commit, Digests, decision_recorded, event_type_value, add_text, experience_ids,
  from_events, to_entry, check_sequences,
}
use rationale_vault.Ledger.Memory
use rationale_vault.Ledger.Memory.{MemoryLedger}
use rationale_vault.Ledger.Memory.Streams.{new_entries, new_receipt, after}
use rationale_vault.Ledger.Memory.Append.{
  IsWellFormed, IsNew, append-IsWellFormed, append_again, append-reads, empty-IsWellFormed,
}
use rationale_vault.Ledger.Sqlite
use rationale_vault.Ledger.Refinement.Runs.{run, runs_agree}
use rationale_vault.Ledger.Build.{SameExperience, from_events-cases}

abbrev digests : Digests String String
digests = record {
  content_digest = λ e. e.actor;
  commit_digest = λ es. "c0ffee";
  to_iso8601 = λ t. t;
}

abbrev event : ℕ → Envelope String String
event n = record {
  rvcj_version = 1;
  event_schema_version = 1;
  experience_id = "exp-1";
  event_type = decision_recorded;
  stream_id = "main";
  sequence = n;
  timestamp = "2026-07-14T00:00:00.000000Z";
  actor = "claude";
  payload = "{}";
  correlation_id = none;
  causation_id = none;
}

abbrev first : Commit String String
first = record { commit_id = "c1"; stream_id = "main"; events = event 1 ∷ event 2 ∷ [] }

abbrev gap : Commit String String
gap = record { commit_id = "c2"; stream_id = "main"; events = event 4 ∷ [] }

abbrev start : MemoryLedger String
start = Memory.empty

abbrev stored : MemoryLedger String
stored = after digests start first first.events

program : Unit {0}
unfolding Memory.append Memory.append_events Sqlite.append Sqlite.write_events Sqlite.insert_events
    Sqlite.insert Sqlite.stored_receipt Sqlite.last_sequence Sqlite.next_order order_by max_of
    check_sequences to_entry event_type_value text_discrete Dict.get Dict.put Dict.has from_events
    experience_ids add_text Memory.read_stream
program = tt

-- The second append raises, and the third is a repetition.
memory_outcomes :
    (run (Memory.append digests) start (first ∷ gap ∷ first ∷ [])).0
    ≡ ok (new_receipt digests start first first.events)
      ∷ raise value_error
      ∷ ok (new_receipt digests start first first.events)
      ∷ []
unfolding program
memory_outcomes = refl

sqlite_outcomes :
    (run (Sqlite.append digests (λ p. p)) Sqlite.empty (first ∷ gap ∷ first ∷ [])).0
    ≡ (run (Memory.append digests) start (first ∷ gap ∷ first ∷ [])).0
unfolding program
sqlite_outcomes = refl

first-append :
    Memory.append digests start first ≡ ok (new_receipt digests start first first.events, stored)
unfolding program
first-append = refl

first-IsNew : IsNew start first
unfolding program
first-IsNew = refl

runs_agree_example :
    ((run (Sqlite.append digests (λ p. p)) Sqlite.empty (first ∷ gap ∷ first ∷ [])).0
      ≡ (run (Memory.append digests) start (first ∷ gap ∷ first ∷ [])).0)
    × ((s : String)
        → Sqlite.read_stream
            (λ p. p)
            (run (Sqlite.append digests (λ p. p)) Sqlite.empty (first ∷ gap ∷ first ∷ [])).1
            s
          ≡ Memory.read_stream (run (Memory.append digests) start (first ∷ gap ∷ first ∷ [])).1 s)
    × ((n : ℕ)
        → Sqlite.read_from
            (λ p. p)
            (run (Sqlite.append digests (λ p. p)) Sqlite.empty (first ∷ gap ∷ first ∷ [])).1
            n
          ≡ Memory.read_from (run (Memory.append digests) start (first ∷ gap ∷ first ∷ [])).1 n)
    × ((id : String)
        → Sqlite.exists
            (run (Sqlite.append digests (λ p. p)) Sqlite.empty (first ∷ gap ∷ first ∷ [])).1
            id
          ≡ Memory.exists (run (Memory.append digests) start (first ∷ gap ∷ first ∷ [])).1 id)
    × ((s : String)
        → Sqlite.stream_exists
            (run (Sqlite.append digests (λ p. p)) Sqlite.empty (first ∷ gap ∷ first ∷ [])).1
            s
          ≡ Memory.stream_exists (run (Memory.append digests) start (first ∷ gap ∷ first ∷ [])).1 s)
runs_agree_example = runs_agree digests (λ p. p) (λ p. p) (λ p. refl) (first ∷ gap ∷ first ∷ [])

append-IsWellFormed_example : IsWellFormed stored
append-IsWellFormed_example =
    append-IsWellFormed digests start first (new_receipt digests start first first.events) stored
      empty-IsWellFormed first-append

append_again_example :
    (Memory.append digests stored first ≡ ok (new_receipt digests start first first.events, stored))
    × (Memory.exists stored "c1" ≡ true)
append_again_example =
    append_again digests start first (new_receipt digests start first first.events) stored
      first-append

append-reads_example :
    ((s : String)
      → Memory.read_stream stored s
        ≡ Memory.read_stream start s
          ++ (if str_eq "main" s then new_entries digests start first first.events else []))
    × (Memory.read_from stored 0 ≡ new_entries digests start first first.events)
append-reads_example =
    append-reads digests start first (new_receipt digests start first first.events) stored
      empty-IsWellFormed first-IsNew first-append

from_events-cases_example :
    (((event 1 ∷ []) ≢ [])
      × SameExperience (event 1 ∷ [])
      × (from_events digests "main" (event 1 ∷ [])
          ≡ ok (record { commit_id = "c0ffee"; stream_id = "main"; events = event 1 ∷ [] })))
    ⊎ ((¬ (((event 1 ∷ []) ≢ []) × SameExperience (event 1 ∷ [])))
        × (from_events digests "main" (event 1 ∷ []) ≡ raise value_error))
from_events-cases_example = from_events-cases digests "main" (event 1 ∷ [])
