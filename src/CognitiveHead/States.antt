-- ===== src/CognitiveHead/States.antt =====
-- cognitive_head/reducers.py: the states that the reducers fold. Fields hold JSON values, since
-- TASK_MUTATED writes any value into any field.
pub mod Updates
use rationale_vault.Prelude.{
  Option, none, some, Result, ok, raise, type_error, ◌>>=◌, if◌then◌else◌,
}
use rationale_vault.Prelude.Dict
use rationale_vault.Prelude.Dict.{Dict}
use rationale_vault.Value.{Value, Value_discrete, truthy, hashable}

pub record ProjectState : Type 0 where
  pub name : Value
  pub goal : Value
  pub current_focus : Value
  pub created_at : Value
  pub created_by : Value

pub record TaskState : Type 0 where
  pub task_id : Value
  pub title : Value
  pub description : Value
  pub status : Value
  pub assignee : Value
  pub priority : Value
  pub tags : Value
  pub blocked_by : Value
  pub created_at : Value
  pub updated_at : Value
  pub completed_at : Value
  pub created_by : Value
  pub progress_notes : Value
  pub related_knowledge_ids : Value

pub record DecisionState : Type 0 where
  pub decision_id : Value
  pub title : Value
  pub description : Value
  pub status : Value
  pub rationale : Value
  pub context : Value
  pub category : Value
  pub superseded_by : Value
  pub created_at : Value
  pub accepted_at : Value
  pub created_by : Value

pub record QuestionState : Type 0 where
  pub question_id : Value
  pub title : Value
  pub description : Value
  pub status : Value
  pub priority : Value
  pub resolution : Value
  pub blocks_task_ids : Value
  pub raised_at : Value
  pub resolved_at : Value
  pub raised_by : Value

-- `not id or id not in states`, and the state where both fail.
unfoldable pub known : {A : Type 0} → Value → Dict Value A → Result (Option A)
known id states =
    if truthy id
    then (if hashable id then ok (Dict.get Value_discrete id states) else raise type_error)
    else ok none

-- `states[id] = state`
unfoldable pub store : {A : Type 0} → Value → A → Dict Value A → Result (Dict Value A)
store id state states =
    if hashable id then ok (Dict.put Value_discrete id state states) else raise type_error

-- An update of a state that is there; an unknown id changes nothing.
unfoldable pub update : {A : Type 0} → Value → (A → Result A) → Dict Value A → Result (Dict Value A)
update id change states = do
  found ← known id states
  elim found [
    | none ↦ ok states
    | some state ↦ do state' ← change state; ok (Dict.put Value_discrete id state' states)
  ]
