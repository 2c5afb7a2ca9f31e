-- ===== src/CognitiveHead/Payload.antt =====
-- cognitive_head/snapshot_payload.py, with the conversions of states in Convert. The SHA-256 of a
-- payload's sorted JSON is the parameter `digest`. JSON text is not modelled: a stored payload is the
-- dict itself.
pub mod Convert
unfoldable pub use Convert.{
  task_to_dict, decision_to_dict, question_to_dict, dict_to_task_state, dict_to_decision_state,
  dict_to_question_state, map_values, map_values_result, stored_task, stored_decision,
  stored_question,
}
use rationale_vault.Prelude.{
  ℕ, String, Bool, Option, none, some, List, [], ◌∷◌, Result, ok, ◌>>=◌, str_eq,
}
use mathlib.Core.Option.{get_or}
use rationale_vault.Prelude.Dict.{Dict, values}
use rationale_vault.Value.{Value, Payload, text, empty_list, lookup, lookup_or, item, list_of}
use rationale_vault.CognitiveHead.States.{TaskState, DecisionState, QuestionState}
use rationale_vault.CognitiveHead.Head.{CognitiveHead, Blocker}

-- All fields but the hash.
pub record PayloadBody : Type 0 where
  pub sequence : ℕ
  pub schema_version : ℕ
  pub projection_version : ℕ
  pub project_id : String
  pub project_name : Value
  pub project_goal : Value
  pub current_focus : Value
  pub ledger_version : ℕ
  pub compiled_at : String
  pub tasks : Dict Value Payload
  pub decisions : Dict Value Payload
  pub questions : Dict Value Payload
  pub blockers : List Blocker

pub record SnapshotPayload : Type 0 where
  pub body : PayloadBody
  pub snapshot_hash : String

-- The dict that `to_dict` gives: the key `snapshot_hash` may be left out.
pub record PayloadDict : Type 0 where
  pub fields : PayloadBody
  pub snapshot_hash : Option String

unfoldable pub to_dict : Bool → SnapshotPayload → PayloadDict
to_dict exclude_hash p = record {
  fields = p.body;
  snapshot_hash = elim exclude_hash [ Bool.true ↦ none | Bool.false ↦ some p.snapshot_hash ];
}

-- `data.get("snapshot_hash", "")`
unfoldable pub from_dict : PayloadDict → SnapshotPayload
from_dict stored = record { body = stored.fields; snapshot_hash = get_or stored.snapshot_hash "" }

module _ (digest : PayloadBody → String) where
  unfoldable pub validate_hash : SnapshotPayload → Bool
  validate_hash p = str_eq p.snapshot_hash (digest p.body)

  unfoldable pub with_hash : SnapshotPayload → SnapshotPayload
  with_hash p = record p { snapshot_hash = digest p.body }

-- Every stored task is an active one, every decision an active one, and every question an open one.
abbrev pub stored_head :
    PayloadBody
    → Dict Value TaskState
    → Dict Value DecisionState
    → Dict Value QuestionState
    → CognitiveHead
stored_head p tasks decisions questions = record {
  project_id = p.project_id;
  project_name = p.project_name;
  project_goal = p.project_goal;
  current_focus = p.current_focus;
  ledger_version = p.ledger_version;
  compiled_at = p.compiled_at;
  active_tasks = values tasks;
  active_decisions = values decisions;
  open_questions = values questions;
  blockers = p.blockers;
}

unfoldable pub to_cognitive_head : SnapshotPayload → Result CognitiveHead
to_cognitive_head p = do
  tasks ← map_values_result stored_task p.body.tasks
  decisions ← map_values_result stored_decision p.body.decisions
  questions ← map_values_result stored_question p.body.questions
  ok (stored_head p.body tasks decisions questions)

-- `from_cognitive_head` with the full reducer state, as the compiler calls it.
unfoldable pub from_cognitive_head :
    (PayloadBody → String)
    → CognitiveHead
    → ℕ
    → Dict Value Payload
    → Dict Value Payload
    → Dict Value Payload
    → SnapshotPayload
from_cognitive_head digest head sequence all_tasks all_decisions all_questions =
    with_hash digest (record {
      body = record {
        sequence = sequence;
        schema_version = 1;
        projection_version = 1;
        project_id = head.project_id;
        project_name = head.project_name;
        project_goal = head.project_goal;
        current_focus = head.current_focus;
        ledger_version = head.ledger_version;
        compiled_at = head.compiled_at;
        tasks = all_tasks;
        decisions = all_decisions;
        questions = all_questions;
        blockers = head.blockers;
      };
      snapshot_hash = "";
    })
