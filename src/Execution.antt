-- ===== src/Execution.antt =====
-- skill_platform/execution_state.py: the state of skill executions, folded from the events of type
-- SKILL_EXECUTED. A set is the list of what was added to it.
pub mod Lists
pub mod Counts
mod Counted
mod Steps
mod Tests
use rationale_vault.Prelude.{
  ℕ, suc, ◌+◌, String, Bool, true, false, not, Option, none, some, List, [], ◌∷◌, ◌++◌, Result, ok,
  raise, type_error, ◌>>=◌, keep, some_of, length, if◌then◌else◌,
}
use mathlib.Core.Logic.{ite}
use mathlib.Core.Option.{get_or}
use rationale_vault.Prelude.Dict
use rationale_vault.Prelude.Dict.{Dict}
use rationale_vault.Value.{
  Value, Payload, null, text, Value_discrete, is_text, hashable, lookup, lookup_or,
}
use rationale_vault.Events.{EventRecord, EventType, skill_executed, for_each}
use rationale_vault.CognitiveHead.States.{store}

pub record ExecutionEntry : Type 0 where
  pub execution_id : Value
  pub decision_id : Value
  pub skill_id : Value
  pub state : Value
  pub input_hash : Value
  pub output_hash : Value
  pub error : Value
  pub started_at : Value
  pub completed_at : Value
  pub duration_ms : Value

pub record ExecutionState : Type 0 where
  pub pending_decisions : List String
  pub completed_executions : List ExecutionEntry
  pub failed_executions : List ExecutionEntry
  pub timeout_executions : List ExecutionEntry
  pub denied_executions : List ExecutionEntry
  pub execution_counts : Dict Value ℕ
  pub success_counts : Dict Value ℕ
  pub durations : Dict Value (List Value)
  pub total_executions : ℕ
  pub total_completed : ℕ
  pub total_failed : ℕ
  pub total_timeout : ℕ
  pub total_denied : ℕ

-- The variables that the loop of `reduce` changes.
pub record Progress : Type 0 where
  pub completed : List ExecutionEntry
  pub failed : List ExecutionEntry
  pub timeouts : List ExecutionEntry
  pub denied : List ExecutionEntry
  pub executed_decision_ids : List Value
  pub execution_counts : Dict Value ℕ
  pub success_counts : Dict Value ℕ
  pub durations : Dict Value (List Value)

abbrev pub no_progress : Progress
no_progress = record {
  completed = [];
  failed = [];
  timeouts = [];
  denied = [];
  executed_decision_ids = [];
  execution_counts = [];
  success_counts = [];
  durations = [];
}

unfoldable pub is_executed : EventType → Bool
is_executed skill_executed = true
is_executed _ = false

unfoldable pub entry_of : Payload → ExecutionEntry
entry_of payload = record {
  execution_id = lookup_or payload "execution_id" (text "");
  decision_id = lookup_or payload "decision_id" (text "");
  skill_id = lookup_or payload "skill_id" (text "");
  state = lookup_or payload "state" (text "UNKNOWN");
  input_hash = lookup_or payload "input_hash" (text "");
  output_hash = lookup_or payload "output_hash" (text "");
  error = lookup payload "error";
  started_at = lookup payload "started_at";
  completed_at = lookup payload "completed_at";
  duration_ms = lookup payload "duration_ms";
}

-- `counts.get(k, 0)`
unfoldable pub count : Value → Dict Value ℕ → ℕ
count k counts = get_or (Dict.get Value_discrete k counts) 0

-- `executed_decision_ids.add(v)`
unfoldable pub add : Value → List Value → Result (List Value)
add v ids = if hashable v then ok (v ∷ ids) else raise type_error

-- `v in executed_decision_ids`
unfoldable pub is_in : Value → List Value → Bool
is_in v ids = some_of (λ id. ite (Value_discrete id v) true false) ids

-- A duration that is not None goes to the end of the list of its skill.
unfoldable pub track : ExecutionEntry → Dict Value (List Value) → Dict Value (List Value)
track entry durations = elim entry.duration_ms [
  | null ↦ durations
  | duration ↦
      Dict.put Value_discrete entry.skill_id
        (get_or (Dict.get Value_discrete entry.skill_id durations) [] ++ duration ∷ []) durations
]

unfoldable pub classify : ExecutionEntry → Progress → Progress
classify entry p =
    if is_text "COMPLETED" entry.state
    then record p {
      completed = p.completed ++ entry ∷ [];
      success_counts =
          Dict.put Value_discrete entry.skill_id (suc (count entry.skill_id p.success_counts))
            p.success_counts;
    }
    else if is_text "TIMEOUT" entry.state
    then record p { timeouts = p.timeouts ++ entry ∷ [] }
    else if is_text "DENIED" entry.state
    then record p { denied = p.denied ++ entry ∷ [] }
    else record p { failed = p.failed ++ entry ∷ [] }

-- One round of the loop, past the test of the event's type.
unfoldable pub add_execution : ExecutionEntry → Progress → Result Progress
add_execution entry p = do
  ids ← add entry.decision_id p.executed_decision_ids
  counts ← store entry.skill_id (suc (count entry.skill_id p.execution_counts)) p.execution_counts
  ok (
      classify entry (record p {
        executed_decision_ids = ids;
        execution_counts = counts;
        durations = track entry p.durations;
      }))

unfoldable pub execution_round : Progress → EventRecord → Result Progress
execution_round p event =
    if is_executed event.event_type then add_execution (entry_of event.payload) p else ok p

unfoldable pub pending : Option (List String) → List Value → List String
pending none executed = []
pending (some known_decision_ids) executed =
    keep (λ id. not (is_in (text id) executed)) known_decision_ids

abbrev pub state_of : Option (List String) → Progress → ExecutionState
state_of known_decision_ids p = record {
  pending_decisions = pending known_decision_ids p.executed_decision_ids;
  completed_executions = p.completed;
  failed_executions = p.failed;
  timeout_executions = p.timeouts;
  denied_executions = p.denied;
  execution_counts = p.execution_counts;
  success_counts = p.success_counts;
  durations = p.durations;
  total_executions = length p.completed + length p.failed + length p.timeouts + length p.denied;
  total_completed = length p.completed;
  total_failed = length p.failed;
  total_timeout = length p.timeouts;
  total_denied = length p.denied;
}

-- `ExecutionStateProjection.reduce`, which `build` calls
unfoldable pub reduce_executions : List EventRecord → Option (List String) → Result ExecutionState
reduce_executions events known_decision_ids = do
  p ← for_each execution_round events no_progress
  ok (state_of known_decision_ids p)
