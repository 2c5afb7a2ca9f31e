-- ===== src/Replay.antt =====
-- replay/types.py, replay/registry.py and replay/engine/default.py: projections that are folded from
-- the entries of a ledger. An event dict has the fields of an entry, and is the entry here. Reducers
-- are pure functions that may raise, over any type of state with an empty one, `{}`.
pub mod Boundary
mod Tests
use mathlib.Core.Option.{get_or}
use rationale_vault.Prelude.{
  ℕ, String, Bool, Option, none, some, List, [], ◌∷◌, ◌++◌, map, Result, ok, raise, value_error,
  key_error, ◌>>=◌, length, keep, leb, max_of, str_eq, text_discrete, if◌then◌else◌,
}
use rationale_vault.Prelude.Dict
use rationale_vault.Prelude.Dict.{Dict}
use rationale_vault.Events.{for_each}
use rationale_vault.Ledger.{LedgerEntry}
use rationale_vault.Ledger.Memory.{MemoryLedger, read_stream, read_from}

-- `ReplayBoundary`: a global order that is not negative
abbrev pub ReplayBoundary : Type 0
ReplayBoundary = ℕ

pub data ReplayScope : Type 0 where
  global_scope : ReplayScope
  stream_scope : String → ReplayScope

-- `ReplayScope(kind, stream_id)` with its checks
unfoldable pub replay_scope : String → Option String → Result ReplayScope
replay_scope kind stream_id =
    if str_eq kind "global"
    then elim stream_id [ none ↦ ok global_scope | some _ ↦ raise value_error ]
    else if str_eq kind "stream"
    then elim stream_id [ none ↦ raise value_error | some s ↦ ok (stream_scope s) ]
    else raise value_error

pub record Registry (P S : Type 0) : Type 0 where
  pub reducers : Dict String (S → LedgerEntry P → Result S)
  pub order : List String

pub record Understanding (S : Type 0) : Type 0 where
  pub projections : Dict String S
  pub boundary : ReplayBoundary

pub record ReplayReport : Type 0 where
  pub mode : String
  pub events_processed : ℕ
  pub snapshot_used : Bool
  pub replay_position : ReplayBoundary
  pub version : ℕ

pub record ReplayResult (S : Type 0) : Type 0 where
  pub understanding : Understanding S
  pub report : ReplayReport
  pub version : ℕ
  pub replay_boundary : ReplayBoundary

module _ {P : Type 0} where
  unfoldable pub compute_boundary : List (LedgerEntry P) → ReplayBoundary
  compute_boundary entries = get_or (max_of (map (λ e. e.global_order) entries)) 0

  unfoldable pub read_entries : MemoryLedger P → ReplayScope → List (LedgerEntry P)
  read_entries ledger global_scope = read_from ledger 0
  read_entries ledger (stream_scope stream_id) = read_stream ledger stream_id

module _ {P S : Type 0} where
  abbrev pub empty_registry : Registry P S
  empty_registry = record { reducers = []; order = [] }

  unfoldable pub register :
      Registry P S → String → (S → LedgerEntry P → Result S) → Result (Registry P S)
  register registry name reducer =
      if Dict.has text_discrete name registry.reducers
      then raise value_error
      else ok (record {
        reducers = Dict.put text_discrete name reducer registry.reducers;
        order = registry.order ++ name ∷ [];
      })

  unfoldable pub get_reducer : Registry P S → String → Result (S → LedgerEntry P → Result S)
  get_reducer registry name = elim (Dict.get text_discrete name registry.reducers) [
    | none ↦ raise key_error
    | some reducer ↦ ok reducer
  ]

  -- The loop of `_apply_reducers` over the names.
  unfoldable pub apply_reducers :
      S → Registry P S → List (LedgerEntry P) → List String → Dict String S → Result (Dict String S)
  apply_reducers empty registry events [] states = ok states
  apply_reducers empty registry events (name ∷ names) states = do
    reducer ← get_reducer registry name
    state ← for_each reducer events empty
    apply_reducers empty registry events names (Dict.put text_discrete name state states)

  -- What both replays do with the entries that they read.
  unfoldable pub replay_entries :
      S → Registry P S → String → List (LedgerEntry P) → Result (ReplayResult S)
  replay_entries empty registry mode entries = do
    let boundary : ReplayBoundary = compute_boundary entries
    projection_states ← apply_reducers empty registry entries registry.order []
    ok (record {
      understanding = record { projections = projection_states; boundary = boundary };
      report = record {
        mode = mode;
        events_processed = length entries;
        snapshot_used = Bool.false;
        replay_position = boundary;
        version = 1;
      };
      version = 1;
      replay_boundary = boundary;
    })

  unfoldable pub replay :
      S → Registry P S → MemoryLedger P → ReplayScope → String → Result (ReplayResult S)
  replay empty registry ledger scope mode =
      replay_entries empty registry mode (read_entries ledger scope)

  unfoldable pub replay_to :
      S → Registry P S → MemoryLedger P → ReplayBoundary → String → Result (ReplayResult S)
  replay_to empty registry ledger boundary mode =
      replay_entries empty registry mode
        (keep (λ e. leb e.global_order boundary) (read_from ledger 0))
