-- ===== src/CognitiveHead/Engine.antt =====
-- cognitive_head/replay_engine.py: `ReplayEngine.build_projection`, and `compile_cognitive_head` of
-- cognitive_head/compiler.py. The time at which a head is compiled is an argument.
pub mod Snapshots
pub mod Restore
pub mod Delta
pub mod Fast
use rationale_vault.Prelude.{
  ℕ, zero, ◌+◌, String, Bool, true, false, Option, none, some, List, [], ◌∷◌, Result, ok, raise,
  ◌>>=◌, ◌>>◌, missing_project_bootstrap, some_of, length, leb, ltb, if◌then◌else◌,
}
use mathlib.Core.Logic.{ite}
use rationale_vault.Prelude.Dict.{Dict}
use rationale_vault.Value.{Value, Payload, null, text}
use rationale_vault.Events.{
  EventRecord, EventType, EventType_discrete, project_created, project_goal_set,
  project_focus_changed,
}
use rationale_vault.EventStore.{EventTable, get_project_stream, get_latest_sequence}
use rationale_vault.CognitiveHead.States.{ProjectState, TaskState, DecisionState, QuestionState}
use rationale_vault.CognitiveHead.Tasks.{reduce_tasks}
use rationale_vault.CognitiveHead.Reducers.{
  empty_project, reduce_project, reduce_decisions, reduce_questions,
}
use rationale_vault.CognitiveHead.Head.{CognitiveHead, ReducedState, latest_version, build_head}
use rationale_vault.CognitiveHead.Payload.{
  PayloadBody, SnapshotPayload, to_cognitive_head, from_cognitive_head, map_values,
  map_values_result, dict_to_task_state, dict_to_decision_state, dict_to_question_state,
  task_to_dict, decision_to_dict, question_to_dict,
}
use rationale_vault.CognitiveHead.Snapshot.{
  SnapshotTable, SnapshotValidationResult, load_valid_snapshot, refresh_snapshot,
}

pub data ReplayMode : Type 0 where
  full delta fast_path : ReplayMode

pub record ReplayResult : Type 0 where
  pub head : CognitiveHead
  pub mode : ReplayMode
  pub events_replayed : ℕ
  pub events_reused : ℕ
  pub snapshot_valid : Bool
  pub snapshot_used : Bool
  pub snapshot_sequence : ℕ
  pub latest_sequence : ℕ

-- The four reducers over one list of events.
unfoldable pub reduce_all : List EventRecord → ReducedState → Result ReducedState
reduce_all events s = do
  project ← reduce_project events s.project
  tasks ← reduce_tasks events s.tasks
  decisions ← reduce_decisions events s.decisions
  questions ← reduce_questions events s.questions
  ok (record { project = project; tasks = tasks; decisions = decisions; questions = questions })

abbrev pub empty_state : ReducedState
empty_state = record { project = empty_project; tasks = []; decisions = []; questions = [] }

-- The state that a snapshot holds: of the project only what the payload has.
unfoldable pub restore : PayloadBody → Result ReducedState
restore p = do
  tasks ← map_values_result dict_to_task_state p.tasks
  decisions ← map_values_result dict_to_decision_state p.decisions
  questions ← map_values_result dict_to_question_state p.questions
  ok (record {
    project = record {
      name = p.project_name;
      goal = p.project_goal;
      current_focus = p.current_focus;
      created_at = null;
      created_by = text "";
    };
    tasks = tasks;
    decisions = decisions;
    questions = questions;
  })

unfoldable pub seen : EventType → List EventRecord → Bool
seen event_type = some_of (λ e. ite (EventType_discrete e.event_type event_type) true false)

-- The bootstrap check of a full replay; an empty stream lacks all three.
unfoldable pub check_bootstrap : List EventRecord → Result (Unit {0})
check_bootstrap events =
    if seen project_created events
    then (if seen project_goal_set events
        then (if seen project_focus_changed events then ok tt else raise missing_project_bootstrap)
        else raise missing_project_bootstrap)
    else raise missing_project_bootstrap

module _ (table : EventTable) (project_id now : String) where
  -- What the fast path returns.
  abbrev pub reused : Bool → SnapshotPayload → CognitiveHead → ReplayResult
  reused valid p head = record {
    head = head;
    mode = fast_path;
    events_replayed = 0;
    events_reused = p.body.sequence;
    snapshot_valid = valid;
    snapshot_used = true;
    snapshot_sequence = p.body.sequence;
    latest_sequence = get_latest_sequence table project_id;
  }

  unfoldable pub fast_replay : Bool → SnapshotPayload → Result ReplayResult
  fast_replay valid p = do head ← to_cognitive_head p; ok (reused valid p head)

  -- What delta and full replay return.
  abbrev pub replayed :
      ReplayMode → CognitiveHead → List EventRecord → ℕ → Bool → Bool → ℕ → ReplayResult
  replayed mode head events events_reused valid used sequence = record {
    head = head;
    mode = mode;
    events_replayed = length events;
    events_reused = events_reused;
    snapshot_valid = valid;
    snapshot_used = used;
    snapshot_sequence = sequence;
    latest_sequence = get_latest_sequence table project_id;
  }

  unfoldable pub delta_replay : Bool → SnapshotPayload → Result ReplayResult
  delta_replay valid p = do
    let events = get_project_stream table project_id p.body.sequence
    restored ← restore p.body
    state ← reduce_all events restored
    head ← build_head project_id now state (latest_version events)
    ok (replayed delta head events p.body.sequence valid true p.body.sequence)

  -- `sequence` is that of the snapshot, or 0.
  unfoldable pub full_replay : Bool → ℕ → Result ReplayResult
  full_replay valid sequence = do
    let events = get_project_stream table project_id 0
    check_bootstrap events
    state ← reduce_all events empty_state
    head ← build_head project_id now state (latest_version events)
    ok (replayed full head events 0 valid false sequence)

  -- What `build_projection` does with the snapshot that was loaded.
  unfoldable pub choose_replay : Bool → Option SnapshotPayload → Result ReplayResult
  choose_replay valid none = full_replay valid 0
  choose_replay valid (some p) =
      if leb (get_latest_sequence table project_id) p.body.sequence
      then fast_replay valid p
      else if ltb 0 p.body.sequence
      then delta_replay valid p
      else full_replay valid p.body.sequence

  unfoldable pub build_projection : SnapshotValidationResult → Result ReplayResult
  build_projection loaded =
      choose_replay loaded.valid (if loaded.valid then loaded.payload else none)

-- The payload that the compiler hands to the snapshot manager: the full state of the reducers.
unfoldable pub snapshot_of :
    (PayloadBody → String) → EventTable → String → CognitiveHead → Result SnapshotPayload
snapshot_of digest table project_id head = do
  let events = get_project_stream table project_id 0
  all_tasks ← reduce_tasks events []
  all_decisions ← reduce_decisions events []
  all_questions ← reduce_questions events []
  ok (
      from_cognitive_head digest head (get_latest_sequence table project_id)
        (map_values task_to_dict all_tasks) (map_values decision_to_dict all_decisions)
        (map_values question_to_dict all_questions))

-- `compile_cognitive_head` with a snapshot manager of the given threshold: the head, and the
-- snapshots that are stored afterwards.
unfoldable pub compile_cognitive_head :
    (PayloadBody → String)
    → ℕ
    → EventTable
    → SnapshotTable
    → String
    → String
    → Result (CognitiveHead × SnapshotTable)
compile_cognitive_head digest threshold table snapshots project_id now = do
  let current_seq = get_latest_sequence table project_id
  result ←
      build_projection table project_id now
        (load_valid_snapshot digest snapshots project_id "cognitive_head" current_seq)
  payload ← snapshot_of digest table project_id result.head
  ok (
    result.head,
    refresh_snapshot digest threshold snapshots project_id "cognitive_head" payload current_seq,
  )
