-- ===== src/Execution/Tests.antt =====
-- One execution that completed and one that timed out.
use rationale_vault.Prelude.{
  ℕ, String, ◌≡◌, refl, none, some, Option, List, [], ◌∷◌, ok, text_discrete, ℕ_discrete,
}
use rationale_vault.Prelude.Dict
use rationale_vault.Value.{text, num, pos, Value_discrete, is_text, hashable, lookup, lookup_or}
use rationale_vault.Events.{EventRecord, skill_executed, for_each}
use rationale_vault.CognitiveHead.States.{store}
use rationale_vault.Execution.{
  ExecutionState, Progress, no_progress, is_executed, entry_of, count, add, is_in, track, classify,
  add_execution, execution_round, pending, state_of, reduce_executions,
}
use rationale_vault.Execution.Lists.{IsListed, reduce_executions-lists}
use rationale_vault.Execution.Counts.{
  IsCounted, reduce_executions-counts, reduce_executions-returns,
}

abbrev event : ℕ → String → EventRecord
event sequence state = record {
  event_sequence = sequence;
  id = "e";
  project_id = "p";
  stream_id = "main";
  version = sequence;
  event_type = skill_executed;
  metadata = record { actor = "skill"; source = "cli"; correlation_id = ""; session_id = "" };
  payload =
      ("state", text state)
      ∷ ("skill_id", text "lint")
      ∷ ("decision_id", text "DEC-1")
      ∷ ("duration_ms", num (pos 40))
      ∷ [];
  parent_id = none;
  recorded_at = none;
  schema_version = num (pos 1);
}

abbrev events : List EventRecord
events = event 1 "COMPLETED" ∷ event 2 "TIMEOUT" ∷ []

abbrev known : Option (List String)
known = some ("DEC-1" ∷ "DEC-2" ∷ [])

program : Unit {0}
unfolding Dict.get Dict.put text_discrete ℕ_discrete Value_discrete is_text hashable lookup
    lookup_or for_each store is_executed entry_of count add is_in track classify add_execution
    execution_round pending reduce_executions
program = tt

abbrev progress : Progress
progress = record no_progress {
  completed = entry_of (event 1 "COMPLETED").payload ∷ [];
  timeouts = entry_of (event 2 "TIMEOUT").payload ∷ [];
  executed_decision_ids = text "DEC-1" ∷ text "DEC-1" ∷ [];
  execution_counts = (text "lint", 2) ∷ [];
  success_counts = (text "lint", 1) ∷ [];
  durations = (text "lint", num (pos 40) ∷ num (pos 40) ∷ []) ∷ [];
}

abbrev state : ExecutionState
state = record (state_of known progress) { pending_decisions = "DEC-2" ∷ [] }

reduced : reduce_executions events known ≡ ok state
unfolding program
reduced = refl

reduce_executions-lists_example : IsListed events known state
reduce_executions-lists_example = reduce_executions-lists events known state reduced

reduce_executions-counts_example : IsCounted events state
reduce_executions-counts_example = reduce_executions-counts events known state reduced

reduce_executions-returns_example : (s : ExecutionState) × (reduce_executions events known ≡ ok s)
unfolding program
reduce_executions-returns_example =
    reduce_executions-returns events known ((refl, refl), ((refl, refl), tt))
