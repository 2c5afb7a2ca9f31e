-- ===== src/CognitiveHead/Payload/Convert.antt =====
-- The conversions between reducer states and the dicts that a snapshot holds: those of compiler.py and
-- replay_engine.py, and those of `to_cognitive_head` in snapshot_payload.py.
use rationale_vault.Prelude.{[], ◌∷◌, Result, ok, ◌>>=◌}
use rationale_vault.Prelude.Dict.{Dict}
use rationale_vault.Value.{Value, Payload, text, empty_list, lookup, lookup_or, item, list_of}
use rationale_vault.CognitiveHead.States.{TaskState, DecisionState, QuestionState}

unfoldable pub task_to_dict : TaskState → Payload
task_to_dict t =
    ("task_id", t.task_id)
    ∷ ("title", t.title)
    ∷ ("description", t.description)
    ∷ ("status", t.status)
    ∷ ("assignee", t.assignee)
    ∷ ("priority", t.priority)
    ∷ ("tags", t.tags)
    ∷ ("blocked_by", t.blocked_by)
    ∷ ("created_at", t.created_at)
    ∷ ("updated_at", t.updated_at)
    ∷ ("completed_at", t.completed_at)
    ∷ ("created_by", t.created_by)
    ∷ ("progress_notes", t.progress_notes)
    ∷ ("related_knowledge_ids", t.related_knowledge_ids)
    ∷ []

unfoldable pub decision_to_dict : DecisionState → Payload
decision_to_dict d =
    ("decision_id", d.decision_id)
    ∷ ("title", d.title)
    ∷ ("description", d.description)
    ∷ ("status", d.status)
    ∷ ("rationale", d.rationale)
    ∷ ("context", d.context)
    ∷ ("category", d.category)
    ∷ ("superseded_by", d.superseded_by)
    ∷ ("created_at", d.created_at)
    ∷ ("accepted_at", d.accepted_at)
    ∷ ("created_by", d.created_by)
    ∷ []

unfoldable pub question_to_dict : QuestionState → Payload
question_to_dict q =
    ("question_id", q.question_id)
    ∷ ("title", q.title)
    ∷ ("description", q.description)
    ∷ ("status", q.status)
    ∷ ("priority", q.priority)
    ∷ ("resolution", q.resolution)
    ∷ ("blocks_task_ids", q.blocks_task_ids)
    ∷ ("raised_at", q.raised_at)
    ∷ ("resolved_at", q.resolved_at)
    ∷ ("raised_by", q.raised_by)
    ∷ []

-- `_dict_to_task_state`: the four lists are copied by `list(…)`.
unfoldable pub dict_to_task_state : Payload → Result TaskState
dict_to_task_state d = do
  tags ← list_of (lookup_or d "tags" empty_list)
  blocked_by ← list_of (lookup_or d "blocked_by" empty_list)
  progress_notes ← list_of (lookup_or d "progress_notes" empty_list)
  related_knowledge_ids ← list_of (lookup_or d "related_knowledge_ids" empty_list)
  ok (record {
    task_id = lookup_or d "task_id" (text "");
    title = lookup_or d "title" (text "");
    description = lookup_or d "description" (text "");
    status = lookup_or d "status" (text "open");
    assignee = lookup d "assignee";
    priority = lookup_or d "priority" (text "normal");
    tags = tags;
    blocked_by = blocked_by;
    created_at = lookup d "created_at";
    updated_at = lookup d "updated_at";
    completed_at = lookup d "completed_at";
    created_by = lookup_or d "created_by" (text "");
    progress_notes = progress_notes;
    related_knowledge_ids = related_knowledge_ids;
  })

-- `_dict_to_decision_state`
unfoldable pub dict_to_decision_state : Payload → Result DecisionState
dict_to_decision_state d = ok (record {
  decision_id = lookup_or d "decision_id" (text "");
  title = lookup_or d "title" (text "");
  description = lookup_or d "description" (text "");
  status = lookup_or d "status" (text "proposed");
  rationale = lookup_or d "rationale" (text "");
  context = lookup_or d "context" (text "");
  category = lookup_or d "category" (text "general");
  superseded_by = lookup d "superseded_by";
  created_at = lookup d "created_at";
  accepted_at = lookup d "accepted_at";
  created_by = lookup_or d "created_by" (text "");
})

-- `_dict_to_question_state`
unfoldable pub dict_to_question_state : Payload → Result QuestionState
dict_to_question_state d = do
  blocks_task_ids ← list_of (lookup_or d "blocks_task_ids" empty_list)
  ok (record {
    question_id = lookup_or d "question_id" (text "");
    title = lookup_or d "title" (text "");
    description = lookup_or d "description" (text "");
    status = lookup_or d "status" (text "open");
    priority = lookup_or d "priority" (text "normal");
    resolution = lookup d "resolution";
    blocks_task_ids = blocks_task_ids;
    raised_at = lookup d "raised_at";
    resolved_at = lookup d "resolved_at";
    raised_by = lookup_or d "raised_by" (text "");
  })

-- The dict comprehensions over `….items()`.
unfoldable pub map_values : {A B : Type 0} → (A → B) → Dict Value A → Dict Value B
map_values f [] = []
map_values f ((k, a) ∷ d) = (k, f a) ∷ map_values f d

unfoldable pub map_values_result :
    {A B : Type 0} → (A → Result B) → Dict Value A → Result (Dict Value B)
map_values_result f [] = ok []
map_values_result f ((k, a) ∷ d) = do b ← f a; rest ← map_values_result f d; ok ((k, b) ∷ rest)

-- `to_cognitive_head`: `task_data["task_id"]` and `task_data["title"]` must be there, and no list
-- is copied.
unfoldable pub stored_task : Payload → Result TaskState
stored_task d = do
  task_id ← item d "task_id"
  title ← item d "title"
  ok (record {
    task_id = task_id;
    title = title;
    description = lookup_or d "description" (text "");
    status = lookup_or d "status" (text "open");
    assignee = lookup d "assignee";
    priority = lookup_or d "priority" (text "normal");
    tags = lookup_or d "tags" empty_list;
    blocked_by = lookup_or d "blocked_by" empty_list;
    created_at = lookup d "created_at";
    updated_at = lookup d "updated_at";
    completed_at = lookup d "completed_at";
    created_by = lookup_or d "created_by" (text "");
    progress_notes = lookup_or d "progress_notes" empty_list;
    related_knowledge_ids = lookup_or d "related_knowledge_ids" empty_list;
  })

unfoldable pub stored_decision : Payload → Result DecisionState
unfolding dict_to_decision_state
stored_decision d = do
  decision_id ← item d "decision_id"
  title ← item d "title"
  rest ← dict_to_decision_state d
  ok (record rest { decision_id = decision_id; title = title })

unfoldable pub stored_question : Payload → Result QuestionState
stored_question d = do
  question_id ← item d "question_id"
  title ← item d "title"
  ok (record {
    question_id = question_id;
    title = title;
    description = lookup_or d "description" (text "");
    status = lookup_or d "status" (text "open");
    priority = lookup_or d "priority" (text "normal");
    resolution = lookup d "resolution";
    blocks_task_ids = lookup_or d "blocks_task_ids" empty_list;
    raised_at = lookup d "raised_at";
    resolved_at = lookup d "resolved_at";
    raised_by = lookup_or d "raised_by" (text "");
  })
