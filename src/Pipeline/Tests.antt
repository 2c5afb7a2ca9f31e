-- ===== src/Pipeline/Tests.antt =====
-- A table with two events, one of them beyond the requested sequence.
use rationale_vault.Prelude.{none, some, [], ◌∷◌}
use rationale_vault.Value.{num, pos, text}
use rationale_vault.Events.{EventRecord, task_created}
use rationale_vault.EventStore.{EventTable}
use rationale_vault.Governance.{GovernanceState, default_governance}
use rationale_vault.Pipeline.{ReplayRequest, historical}
use rationale_vault.Prelude.{ℕ}

abbrev event : ℕ → EventRecord
event sequence = record {
  event_sequence = sequence;
  id = "e";
  project_id = "p";
  stream_id = "main";
  version = sequence;
  event_type = task_created;
  metadata = record { actor = "claude"; source = "cli"; correlation_id = ""; session_id = "" };
  payload = ("task_id", text "t1") ∷ [];
  parent_id = none;
  recorded_at = none;
  schema_version = num (pos 2);
}

abbrev table : EventTable
table = record { rows = event 1 ∷ event 2 ∷ []; last_sequence = 2 }

abbrev governance : GovernanceState
governance = record default_governance {
  schema_versions = (text "TASK_CREATED", (pos 2, num (pos 1))) ∷ [];
}

abbrev request : ReplayRequest
request = record { mode = historical; sequence = some 1 }
