-- ===== src/CognitiveHead/Tests.antt =====
-- The theorems of the event table and of the cognitive head at a project of five events: a snapshot
-- is taken after four of them, and the fifth completes the task that the fourth creates.
use rationale_vault.Prelude.{
  ◌+◌, String, ◌≡◌, refl, true, false, none, [], ◌∷◌, ◌++◌, Result, ok, raise, text_discrete, All,
  map, order_by, max_of, arith, ap, str_eq,
}
use rationale_vault.Prelude.Dict
use rationale_vault.Prelude.Dict.{Dict, values}
use rationale_vault.Value.{
  Value, Payload, empty_list, null, text, obj, lookup, lookup_or, item, subscript, find_field,
  list_of, iterate, to_list, from_list, to_fields, truthy, hashable, is_text, Value_discrete,
}
use rationale_vault.Events.{
  EventRecord, EventMetadata, EventType, EventType_discrete, recorded, for_each, project_created,
  project_goal_set, project_focus_changed, task_created, task_completed, task_mutated,
}
use rationale_vault.EventStore.{
  EventTable, no_events, new_event, insert_event, append_event, next_version, schema_version_of,
  get_project_stream, get_latest_sequence, get_event_count,
}
use rationale_vault.EventStore.Streams.{IsOrdered, Grows, same, appended, get_project_stream-Grows}
use rationale_vault.EventStore.Versions.{CountsUp, versions, append_event-versions}
use rationale_vault.CognitiveHead.States.{known, store, update}
use rationale_vault.CognitiveHead.Tasks.{
  write_field, attribute, attribute_or, replace_fields, set_field, set_fields, mutate_task,
  new_task, complete_task, task_round, reduce_tasks,
}
use rationale_vault.CognitiveHead.Reducers.{
  project_round, reduce_project, decision_round, reduce_decisions, question_round, reduce_questions,
}
use rationale_vault.CognitiveHead.Reducers.Invariants.{
  IsTask, IsDecision, IsQuestion, reduce_all-IsWellFormed,
}
use rationale_vault.CognitiveHead.Reducers.Mutation.{IsPlain}
use rationale_vault.CognitiveHead.Reducers.Independence.{names, reduce_alone}
use rationale_vault.CognitiveHead.States.Updates.{find}
use rationale_vault.CognitiveHead.States.{TaskState, DecisionState, QuestionState}
use rationale_vault.Prelude.{keep, List}
use rationale_vault.CognitiveHead.Head.{
  CognitiveHead, ReducedState, priority_rank, sort_by_priority, member, add_member, hash_all,
  add_blocker, task_blockers, question_blockers, less, insert_sorted, sorted, list_blockers,
  latest_version, head_lists, build_head,
}
use rationale_vault.CognitiveHead.Payload.{
  PayloadBody, SnapshotPayload, task_to_dict, decision_to_dict, question_to_dict, map_values,
  from_cognitive_head, with_hash, to_dict, from_dict, validate_hash,
}
use rationale_vault.CognitiveHead.Snapshot.{
  SnapshotTable, load_valid_snapshot, load_latest_raw, latest_row, get_latest_snapshot_sequence,
  should_snapshot, refresh_snapshot, save_snapshot, validate,
}
use rationale_vault.CognitiveHead.Engine.{
  ReplayResult, full, reduce_all, empty_state, seen, check_bootstrap, full_replay, delta_replay,
  fast_replay, choose_replay, build_projection, snapshot_of, compile_cognitive_head,
}
use rationale_vault.CognitiveHead.Engine.Restore.{HasLists}
use rationale_vault.CognitiveHead.Engine.Delta.{SameHead, delta_replay-full}
use rationale_vault.CognitiveHead.Engine.Fast.{fast_replay-lists_all}
use rationale_vault.CognitiveHead.Engine.Snapshots.{
  IsDigest, nothing, compiled, compile-replays_fully,
}

abbrev value_of : {A : Type 0} → Result A → A → A
value_of (ok x) default = x
value_of (raise e) default = default

abbrev metadata : EventMetadata
metadata = record { actor = "claude"; source = "cli"; correlation_id = ""; session_id = "" }

abbrev details : Value
details = obj (to_fields (("summary", text "Ship") ∷ ("body", text "Ship it") ∷ []))

-- The next event of the project.
abbrev event : EventTable → EventType → Payload → String → EventRecord
event t event_type payload id = new_event t "p" "main" event_type payload metadata none id "noon"

abbrev add : EventTable → EventType → Payload → String → EventTable
add t event_type payload id = insert_event t (event t event_type payload id)

abbrev table1 : EventTable
table1 = add no_events project_created (("name", text "Vault") ∷ []) "e1"

abbrev table2 : EventTable
table2 = add table1 project_goal_set (("goal", text "Remember") ∷ []) "e2"

abbrev table3 : EventTable
table3 = add table2 project_focus_changed (("focus", text "Ledger") ∷ []) "e3"

abbrev old : EventTable
old = add table3 task_created (("task_id", text "t1") ∷ ("details", details) ∷ []) "e4"

abbrev new : EventTable
new = add old task_completed (("task_id", text "t1") ∷ []) "e5"

program : Unit {0}
unfolding append_event next_version schema_version_of get_project_stream get_latest_sequence
    get_event_count order_by max_of lookup lookup_or item subscript find_field list_of iterate
    to_list from_list to_fields truthy hashable is_text Value_discrete EventType_discrete
    text_discrete recorded for_each Dict.get Dict.put Dict.has known store update new_task
    write_field attribute attribute_or replace_fields set_field set_fields mutate_task complete_task
    task_round reduce_tasks project_round reduce_project decision_round reduce_decisions
    question_round reduce_questions priority_rank sort_by_priority member add_member hash_all
    add_blocker task_blockers question_blockers less insert_sorted sorted list_blockers
    latest_version head_lists build_head task_to_dict decision_to_dict question_to_dict map_values
    from_cognitive_head with_hash to_dict from_dict validate_hash load_valid_snapshot
    load_latest_raw latest_row get_latest_snapshot_sequence should_snapshot refresh_snapshot
    save_snapshot validate reduce_all seen check_bootstrap full_replay delta_replay fast_replay
    choose_replay build_projection snapshot_of compile_cognitive_head
program = tt

latest_of_new : get_latest_sequence new "p" ≡ 5
unfolding program
latest_of_new = refl

grown : Grows old new
unfolding program
grown =
    appended "p" "main" task_completed (("task_id", text "t1") ∷ []) metadata none "e5" "noon" old
      new (event old task_completed (("task_id", text "t1") ∷ []) "e5") same refl

bootstrapped : check_bootstrap (get_project_stream old "p" 0) ≡ ok tt
unfolding program
bootstrapped = refl

abbrev no_head : CognitiveHead
no_head = record {
  project_id = "";
  project_name = null;
  project_goal = null;
  current_focus = null;
  ledger_version = 0;
  compiled_at = "";
  active_tasks = [];
  active_decisions = [];
  open_questions = [];
  blockers = [];
}

abbrev no_result : ReplayResult
no_result = record {
  head = no_head;
  mode = full;
  events_replayed = 0;
  events_reused = 0;
  snapshot_valid = false;
  snapshot_used = false;
  snapshot_sequence = 0;
  latest_sequence = 0;
}

abbrev digest : PayloadBody → String
digest body = "5ha256"

abbrev state : ReducedState
state = value_of (reduce_all (get_project_stream old "p" 0) empty_state) empty_state

abbrev result : ReplayResult
result = value_of (full_replay old "p" "noon" false 0) no_result

abbrev later_result : ReplayResult
later_result = value_of (full_replay new "p" "one" false 0) no_result

abbrev snapshot : SnapshotPayload
snapshot =
    value_of (snapshot_of digest old "p" result.head)
      (from_cognitive_head digest no_head 0 [] [] [])

stored_state : reduce_all (get_project_stream old "p" 0) empty_state ≡ ok state
unfolding program
stored_state = refl

replayed_once : full_replay old "p" "noon" false 0 ≡ ok result
unfolding program
replayed_once = refl

replayed_later : full_replay new "p" "one" false 0 ≡ ok later_result
unfolding program
replayed_later = refl

snapshot_taken : snapshot_of digest old "p" result.head ≡ ok snapshot
unfolding program
snapshot_taken = refl

old-IsOrdered : IsOrdered old
old-IsOrdered = (
  (
    (omega arith, omega arith),
    ((omega arith, omega arith), ((omega arith, omega arith), ((omega arith, omega arith), tt))),
  ),
  (
    (omega arith, (omega arith, (omega arith, tt))),
    ((omega arith, (omega arith, tt)), ((omega arith, tt), (tt, tt))),
  ),
)

state-HasLists : HasLists state
unfolding program
state-HasLists = (((tt, tt, tt, tt), tt), tt)

delta_replay-full_example :
    (r2 : ReplayResult) × (delta_replay new "p" "one" true snapshot ≡ ok r2)
    × SameHead later_result.head r2.head
    × (r2.head.ledger_version
        ≡ latest_version (get_project_stream new "p" (get_latest_sequence old "p")))
delta_replay-full_example =
    delta_replay-full digest old new "p" "noon" "one" result later_result state snapshot
      old-IsOrdered grown replayed_once snapshot_taken stored_state state-HasLists replayed_later

fast_replay-lists_all_example :
    (r : ReplayResult) × (fast_replay old "p" "one" true snapshot ≡ ok r)
    × (r.head.active_tasks ≡ values state.tasks)
    × (r.head.active_decisions ≡ values state.decisions)
    × (r.head.open_questions ≡ values state.questions)
fast_replay-lists_all_example =
    fast_replay-lists_all digest old "p" "noon" "one" result state snapshot replayed_once
      snapshot_taken stored_state

get_project_stream-Grows_example :
    get_project_stream new "p" 0
    ≡ get_project_stream old "p" 0 ++ get_project_stream new "p" (get_latest_sequence old "p")
get_project_stream-Grows_example = get_project_stream-Grows old new "p" old-IsOrdered grown

grown2 : Grows no_events table2
unfolding program
grown2 =
    appended "p" "main" project_goal_set (("goal", text "Remember") ∷ []) metadata none "e2" "noon"
      table1 table2 (event table1 project_goal_set (("goal", text "Remember") ∷ []) "e2")
      (appended "p" "main" project_created (("name", text "Vault") ∷ []) metadata none "e1" "noon"
        no_events table1 (event no_events project_created (("name", text "Vault") ∷ []) "e1") same
        refl)
      refl

append_event-versions_example :
    CountsUp 1 (versions table2 "p")
    × (next_version table2.rows "p" ≡ get_event_count table2 "p" + 1)
append_event-versions_example = append_event-versions table2 "p" grown2

-- A task that a mutation renames after it was created.
abbrev mutated : EventTable
mutated = add old task_mutated (("task_id", text "t1") ∷ ("title", text "Shipped") ∷ []) "e5"

abbrev mutated_state : ReducedState
mutated_state = value_of (reduce_all (get_project_stream mutated "p" 0) empty_state) empty_state

mutates : reduce_all (get_project_stream mutated "p" 0) empty_state ≡ ok mutated_state
unfolding program
mutates = refl

plain :
    All (λ e. e.event_type ≡ task_mutated → IsPlain e.payload) (get_project_stream mutated "p" 0)
unfolding program
plain = (
  (λ m. absurd (cc m)),
  (
    (λ m. absurd (cc m)),
    ((λ m. absurd (cc m)), ((λ m. absurd (cc m)), ((λ m. (refl, (refl, tt))), tt))),
  ),
)

reduce_all-IsWellFormed_example :
    All IsTask mutated_state.tasks
    × All IsDecision mutated_state.decisions
    × All IsQuestion mutated_state.questions
reduce_all-IsWellFormed_example =
    reduce_all-IsWellFormed (get_project_stream mutated "p" 0) empty_state mutated_state plain
      mutates (tt, tt, tt)

-- A mutation that writes `__dict__` changes the id of the task that it names.
abbrev replaced : List EventRecord
replaced =
    event no_events task_created (("task_id", text "t1") ∷ ("details", details) ∷ []) "e1"
    ∷ event no_events task_mutated
        (("task_id", text "t1")
          ∷ (
            "__dict__",
            obj (
                to_fields (
                  ("task_id", text "t2")
                  ∷ ("title", text "Other")
                  ∷ ("tags", empty_list)
                  ∷ ("blocked_by", empty_list)
                  ∷ ("progress_notes", empty_list)
                  ∷ ("related_knowledge_ids", empty_list)
                  ∷ [])),
          )
          ∷ [])
        "e2"
    ∷ []

replaced_ids :
    map {B = Value × Value}
      (λ (entry : Value × TaskState). (entry.0, entry.1.task_id))
      (value_of (reduce_tasks replaced []) [])
    ≡ (text "t1", text "t2") ∷ []
unfolding program
replaced_ids = refl

abbrev compilation : CognitiveHead × SnapshotTable
compilation = value_of (compile_cognitive_head digest 10 old [] "p" "noon") (no_head, [])

abbrev later_compilation : CognitiveHead × SnapshotTable
later_compilation =
    value_of (compile_cognitive_head digest 10 new compilation.1 "p" "one") (no_head, [])

compiled_once :
    compile_cognitive_head digest 10 old [] "p" "noon" ≡ ok (compilation.0, compilation.1)
unfolding program
compiled_once = refl

compiled_later :
    compile_cognitive_head digest 10 new compilation.1 "p" "one"
    ≡ ok (later_compilation.0, later_compilation.1)
unfolding program
compiled_later = refl

digest-IsDigest : IsDigest digest
digest-IsDigest p e = let b : false ≡ true = ap (λ s. str_eq s "") e in cc b

compile-replays_fully_example :
    ((load_valid_snapshot digest compilation.1 "p" "cognitive_head"
        (get_latest_sequence new "p")).valid
      ≡ false)
    × ((result : ReplayResult) × (full_replay new "p" "one" false 0 ≡ ok result)
        × (result.head ≡ later_compilation.0))
compile-replays_fully_example =
    compile-replays_fully digest 10 new compilation.1 "p" "one" later_compilation.0
      later_compilation.1 digest-IsDigest
      (compiled 10 old "p" "noon" compilation.0 [] compilation.1 nothing compiled_once)
      compiled_later

abbrev stream : List EventRecord
stream = get_project_stream new "p" 0

abbrev new_state : ReducedState
new_state = value_of (reduce_all stream empty_state) empty_state

new_tasks : reduce_tasks stream [] ≡ ok new_state.tasks
unfolding program
new_tasks = refl

new_decisions : reduce_decisions stream [] ≡ ok new_state.decisions
unfolding program
new_decisions = refl

new_questions : reduce_questions stream [] ≡ ok new_state.questions
unfolding program
new_questions = refl

reduce_alone_example :
    ((alone : Dict Value TaskState) × (reduce_tasks (keep (names "task_id" (text "t1")) stream) []
        ≡ ok alone)
      × (find (text "t1") new_state.tasks ≡ find (text "t1") alone))
    × ((alone : Dict Value DecisionState) × (reduce_decisions
            (keep (names "decision_id" (text "t1")) stream)
            []
          ≡ ok alone)
        × (find (text "t1") new_state.decisions ≡ find (text "t1") alone))
    × ((alone : Dict Value QuestionState) × (reduce_questions
            (keep (names "question_id" (text "t1")) stream)
            []
          ≡ ok alone)
        × (find (text "t1") new_state.questions ≡ find (text "t1") alone))
reduce_alone_example =
    reduce_alone stream (text "t1") new_state.tasks new_state.decisions new_state.questions
      new_tasks new_decisions new_questions
