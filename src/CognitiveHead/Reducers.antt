-- ===== src/CognitiveHead/Reducers.antt =====
-- cognitive_head/reducers.py: `ProjectReducer`, `DecisionReducer` and `QuestionReducer`. A round of
-- a loop is a function by clauses on the event type.
pub mod Mutation
pub mod Invariants
pub mod Independence
use rationale_vault.Prelude.{
  String, Bool, true, false, Option, none, some, List, [], ◌∷◌, Result, ok, raise, type_error,
  attribute_error, ◌>>=◌, str_eq, if◌then◌else◌, ◌++◌, text_discrete,
}
use rationale_vault.Prelude.Dict
use rationale_vault.Prelude.Dict.{Dict}
use rationale_vault.Value.{
  Value, Payload, null, num, pos, text, arr, obj, empty_list, Value_discrete, truthy, hashable,
  lookup, lookup_or, item, subscript, list_of, to_list, from_list, to_fields,
}
use rationale_vault.Events.{
  EventRecord, EventType, recorded, for_each, project_created, project_goal_set,
  project_focus_changed, task_created, task_mutated, task_completed, task_progress_noted,
  decision_proposed, decision_accepted, decision_superseded, open_question_raised,
  open_question_resolved,
}
use rationale_vault.CognitiveHead.States.{
  ProjectState, TaskState, DecisionState, QuestionState, known, store, update,
}

-- `ProjectState()`
abbrev pub empty_project : ProjectState
empty_project = record {
  name = text "";
  goal = text "";
  current_focus = text "";
  created_at = null;
  created_by = text "";
}

unfoldable pub project_round : EventType → EventRecord → ProjectState → Result ProjectState
project_round project_created e state = ok (record state {
  name = lookup_or e.payload "name" (text "");
  created_at = recorded e;
  created_by = text e.metadata.actor;
})
project_round project_goal_set e state =
    ok (record state { goal = lookup_or e.payload "goal" (text "") })
project_round project_focus_changed e state =
    ok (record state { current_focus = lookup_or e.payload "focus" (text "") })
project_round _ e state = ok state

-- `ProjectReducer.reduce`
unfoldable pub reduce_project : List EventRecord → ProjectState → Result ProjectState
reduce_project = for_each (λ state e. project_round e.event_type e state)

unfoldable pub new_decision : Value → EventRecord → DecisionState
new_decision decision_id e = record {
  decision_id = decision_id;
  title = lookup_or e.payload "title" (text "");
  description = lookup_or e.payload "description" (text "");
  status = text "proposed";
  rationale = lookup_or e.payload "rationale" (text "");
  context = lookup_or e.payload "context" (text "");
  category = lookup_or e.payload "category" (text "general");
  superseded_by = null;
  created_at = recorded e;
  accepted_at = null;
  created_by = text e.metadata.actor;
}

unfoldable pub accept_decision : EventRecord → DecisionState → Result DecisionState
accept_decision e d = ok (record d { status = text "accepted"; accepted_at = recorded e })

unfoldable pub supersede_decision : EventRecord → DecisionState → Result DecisionState
supersede_decision e d =
    ok (record d { status = text "superseded"; superseded_by = lookup e.payload "superseded_by" })

unfoldable pub decision_round :
    EventType → EventRecord → Dict Value DecisionState → Result (Dict Value DecisionState)
decision_round decision_proposed e decisions =
    if truthy (lookup e.payload "decision_id")
    then store (lookup e.payload "decision_id") (new_decision (lookup e.payload "decision_id") e)
        decisions
    else ok decisions
decision_round decision_accepted e decisions =
    update (lookup e.payload "decision_id") (accept_decision e) decisions
decision_round decision_superseded e decisions =
    update (lookup e.payload "decision_id") (supersede_decision e) decisions
decision_round _ e decisions = ok decisions

-- `DecisionReducer.reduce`
unfoldable pub reduce_decisions :
    List EventRecord → Dict Value DecisionState → Result (Dict Value DecisionState)
reduce_decisions = for_each (λ decisions e. decision_round e.event_type e decisions)

unfoldable pub new_question : Value → EventRecord → Result QuestionState
new_question question_id e = do
  blocks_task_ids ← list_of (lookup_or e.payload "blocks_task_ids" empty_list)
  ok (record {
    question_id = question_id;
    title = lookup_or e.payload "title" (text "");
    description = lookup_or e.payload "description" (text "");
    status = text "open";
    priority = lookup_or e.payload "priority" (text "normal");
    resolution = null;
    blocks_task_ids = blocks_task_ids;
    raised_at = recorded e;
    resolved_at = null;
    raised_by = text e.metadata.actor;
  })

unfoldable pub resolve_question : EventRecord → QuestionState → Result QuestionState
resolve_question e q = ok (record q {
  status = text "resolved";
  resolution = lookup_or e.payload "resolution" (text "");
  resolved_at = recorded e;
})

unfoldable pub question_round :
    EventType → EventRecord → Dict Value QuestionState → Result (Dict Value QuestionState)
question_round open_question_raised e questions =
    if truthy (lookup e.payload "question_id")
    then (do
      q ← new_question (lookup e.payload "question_id") e
      store (lookup e.payload "question_id") q questions)
    else ok questions
question_round open_question_resolved e questions =
    update (lookup e.payload "question_id") (resolve_question e) questions
question_round _ e questions = ok questions

-- `QuestionReducer.reduce`
unfoldable pub reduce_questions :
    List EventRecord → Dict Value QuestionState → Result (Dict Value QuestionState)
reduce_questions = for_each (λ questions e. question_round e.event_type e questions)
