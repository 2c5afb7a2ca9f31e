-- ===== src/CognitiveHead/Tasks.antt =====
-- cognitive_head/reducers.py: `TaskReducer`. A round of its loop is a function by clauses on the
-- event type; it raises where the payload does not have the shape that it reads. Of the attributes
-- that every Python object has, writing `__dict__`, `__class__` and `__weakref__` is modelled; writing
-- another one, such as `__doc__`, changes no field, and what it does to later calls of Python's own
-- functions is left out.
use rationale_vault.Prelude.{
  String, List, [], ◌∷◌, Result, ok, raise, attribute_error, type_error, none, some, ◌>>=◌, str_eq,
  if◌then◌else◌, ◌++◌,
}
use rationale_vault.Prelude.Dict.{Dict}
use rationale_vault.Value.{
  Value, Payload, Fields, find_field, null, num, pos, text, arr, obj, empty_list, truthy, lookup,
  lookup_or, item, subscript, list_of, to_list, from_list, to_fields,
}
use rationale_vault.Events.{
  EventRecord, EventType, recorded, for_each, task_created, task_mutated, task_completed,
  task_progress_noted,
}
use rationale_vault.CognitiveHead.States.{TaskState, store, update}

unfoldable pub new_task : Value → EventRecord → Result TaskState
new_task task_id e = do
  details ← item e.payload "details"
  title ← subscript details "summary"
  description ← subscript details "body"
  tags ← list_of (lookup_or e.payload "tags" empty_list)
  blocked_by ← list_of (lookup_or e.payload "blocked_by" empty_list)
  ok (record {
    task_id = task_id;
    title = title;
    description = description;
    status = text "open";
    assignee = lookup e.payload "assignee";
    priority = lookup_or e.payload "priority" (text "normal");
    tags = tags;
    blocked_by = blocked_by;
    created_at = recorded e;
    updated_at = null;
    completed_at = null;
    created_by = text e.metadata.actor;
    progress_notes = empty_list;
    related_knowledge_ids = empty_list;
  })

-- `setattr(t, k, v)` for a declared field but `task_id`; another name writes no field.
unfoldable pub write_field : String → Value → TaskState → TaskState
write_field k v t =
    if str_eq k "title"
    then record t { title = v }
    else if str_eq k "description"
    then record t { description = v }
    else if str_eq k "status"
    then record t { status = v }
    else if str_eq k "assignee"
    then record t { assignee = v }
    else if str_eq k "priority"
    then record t { priority = v }
    else if str_eq k "tags"
    then record t { tags = v }
    else if str_eq k "blocked_by"
    then record t { blocked_by = v }
    else if str_eq k "created_at"
    then record t { created_at = v }
    else if str_eq k "updated_at"
    then record t { updated_at = v }
    else if str_eq k "completed_at"
    then record t { completed_at = v }
    else if str_eq k "created_by"
    then record t { created_by = v }
    else if str_eq k "progress_notes"
    then record t { progress_notes = v }
    else if str_eq k "related_knowledge_ids"
    then record t { related_knowledge_ids = v }
    else t

-- An attribute of an object whose `__dict__` is `fields`, without or with a default of its class.
unfoldable pub attribute : Fields → String → Result Value
attribute fields k = elim (find_field k fields) [ none ↦ raise attribute_error | some v ↦ ok v ]

unfoldable pub attribute_or : Fields → String → Value → Value
attribute_or fields k default = elim (find_field k fields) [ none ↦ default | some v ↦ v ]

-- `setattr(t, "__dict__", v)`: the object gets the members of `v` as its attributes. Where one is
-- missing that has no default, Python raises when it is read, and the model at once.
unfoldable pub replace_fields : Value → Result TaskState
replace_fields (obj fields) = do
  task_id ← attribute fields "task_id"
  title ← attribute fields "title"
  tags ← attribute fields "tags"
  blocked_by ← attribute fields "blocked_by"
  progress_notes ← attribute fields "progress_notes"
  related_knowledge_ids ← attribute fields "related_knowledge_ids"
  ok (record {
    task_id = task_id;
    title = title;
    description = attribute_or fields "description" (text "");
    status = attribute_or fields "status" (text "open");
    assignee = attribute_or fields "assignee" null;
    priority = attribute_or fields "priority" (text "normal");
    tags = tags;
    blocked_by = blocked_by;
    created_at = attribute_or fields "created_at" null;
    updated_at = attribute_or fields "updated_at" null;
    completed_at = attribute_or fields "completed_at" null;
    created_by = attribute_or fields "created_by" (text "");
    progress_notes = progress_notes;
    related_knowledge_ids = related_knowledge_ids;
  })
replace_fields v = raise type_error

-- `if hasattr(t, k): setattr(t, k, v)`, for any key but `task_id`. No value of a payload is a class,
-- and a weak reference cannot be set.
unfoldable pub set_field : String → Value → TaskState → Result TaskState
set_field k v t =
    if str_eq k "__dict__"
    then replace_fields v
    else if str_eq k "__class__"
    then raise type_error
    else if str_eq k "__weakref__"
    then raise attribute_error
    else ok (write_field k v t)

-- The loop over `p.items()`; the key `task_id` names no field that `set_field` knows.
unfoldable pub set_fields : Payload → TaskState → Result TaskState
set_fields [] t = ok t
set_fields ((k, v) ∷ p) t = do t' ← set_field k v t; set_fields p t'

unfoldable pub mutate_task : EventRecord → TaskState → Result TaskState
mutate_task e t = do t' ← set_fields e.payload t; ok (record t' { updated_at = recorded e })

unfoldable pub complete_task : EventRecord → TaskState → Result TaskState
complete_task e t = ok (record t { status = text "completed"; completed_at = recorded e })

unfoldable pub progress_note : EventRecord → Value
progress_note e = obj (
    to_fields (
      ("note", lookup_or e.payload "note" (text ""))
      ∷ ("timestamp", recorded e)
      ∷ ("actor", text e.metadata.actor)
      ∷ ("source_event_seq", num (pos e.event_sequence))
      ∷ []))

-- `t.progress_notes.append(…)`, where the notes are `notes`
abbrev pub noted : EventRecord → TaskState → Value → Result TaskState
noted e t (arr notes) =
    ok (record t { progress_notes = arr (from_list (to_list notes ++ progress_note e ∷ [])) })
noted e t notes = raise attribute_error

unfoldable pub note_progress : EventRecord → TaskState → Result TaskState
note_progress e t = noted e t t.progress_notes

unfoldable pub task_round :
    EventType → EventRecord → Dict Value TaskState → Result (Dict Value TaskState)
task_round task_created e tasks =
    if truthy (lookup e.payload "task_id")
    then (do
      t ← new_task (lookup e.payload "task_id") e
      store (lookup e.payload "task_id") t tasks)
    else ok tasks
task_round task_mutated e tasks = update (lookup e.payload "task_id") (mutate_task e) tasks
task_round task_completed e tasks = update (lookup e.payload "task_id") (complete_task e) tasks
task_round task_progress_noted e tasks = update (lookup e.payload "task_id") (note_progress e) tasks
task_round _ e tasks = ok tasks

-- `TaskReducer.reduce`
unfoldable pub reduce_tasks :
    List EventRecord → Dict Value TaskState → Result (Dict Value TaskState)
reduce_tasks = for_each (λ tasks e. task_round e.event_type e tasks)
