-- ===== src/CognitiveHead/Head.antt =====
-- cognitive_head/compiler.py and `_build_head` of cognitive_head/replay_engine.py: the compiled head.
use rationale_vault.Prelude.{
  ℕ, String, Bool, true, false, not, Option, none, some, List, [], ◌∷◌, ◌++◌, map, Result, ok,
  raise, type_error, ◌>>=◌, keep, some_of, order_by, max_of, ltb, ◌&&◌, if◌then◌else◌,
}
use mathlib.Core.Option.{get_or}
use mathlib.Core.Logic.{ite}
use Prim.Native.String.{compare as compare_text}
use Prim.Native.Nat.{Ordering}
use rationale_vault.Prelude.Dict
use rationale_vault.Prelude.Dict.{Dict, values}
use rationale_vault.Value.{
  Value, bool, num, pos, negsuc, ℤ, text, Value_discrete, is_text, hashable, iterate,
}
use rationale_vault.Events.{EventRecord, for_each}
use rationale_vault.CognitiveHead.States.{ProjectState, TaskState, DecisionState, QuestionState}

pub record Blocker : Type 0 where
  pub task_id : Value
  pub task_title : Value
  pub blocked_by_questions : List Value

pub record CognitiveHead : Type 0 where
  pub project_id : String
  pub project_name : Value
  pub project_goal : Value
  pub current_focus : Value
  pub ledger_version : ℕ
  pub compiled_at : String
  pub active_tasks : List TaskState
  pub active_decisions : List DecisionState
  pub open_questions : List QuestionState
  pub blockers : List Blocker

-- `_PRIORITY_ORDER.get(priority, 2)`, for a priority that can be a key
unfoldable pub priority_rank : Value → ℕ
priority_rank priority =
    if is_text "critical" priority
    then 0
    else if is_text "high" priority
    then 1
    else if is_text "low" priority
    then 3
    else 2

-- `items.sort(key=λ x. _PRIORITY_ORDER.get(x.priority, 2))`: all keys are looked up first.
unfoldable pub sort_by_priority : {A : Type 0} → (A → Value) → List A → Result (List A)
sort_by_priority priority items =
    if some_of (λ x. not (hashable (priority x))) items
    then raise type_error
    else ok (order_by (λ x. priority_rank (priority x)) items)

-- `x in s` and `s.add(x)` for a set of values, as the list of its members
unfoldable pub member : Value → List Value → Bool
member x [] = false
member x (y ∷ s) = ite (Value_discrete y x) true (member x s)

unfoldable pub add_member : Value → List Value → List Value
add_member x s = if member x s then s else s ++ x ∷ []

-- `{x for x in values}`: only what can be hashed is a member.
unfoldable pub hash_all : List Value → Result (List Value)
hash_all values = if some_of (λ v. not (hashable v)) values then raise type_error else ok values

-- `blocker_map.setdefault(task_id, set()).add(question_id)`
unfoldable pub add_blocker :
    Value → Value → Dict Value (List Value) → Result (Dict Value (List Value))
add_blocker task_id question_id blockers =
    if hashable task_id && hashable question_id
    then ok (
        Dict.put Value_discrete task_id
          (add_member question_id (get_or (Dict.get Value_discrete task_id blockers) [])) blockers)
    else raise type_error

-- `for task in active_tasks: for qid in task.blocked_by: if qid in open_question_ids: …`
unfoldable pub task_blockers :
    List Value → List TaskState → Dict Value (List Value) → Result (Dict Value (List Value))
task_blockers open_question_ids = for_each (λ blockers task. do
  ids ← iterate task.blocked_by
  for_each
      (λ blockers qid.
        if hashable qid
        then (if member qid open_question_ids
            then add_blocker task.task_id qid blockers
            else ok blockers)
        else raise type_error)
      ids blockers)

-- `for q in open_questions: for tid in q.blocks_task_ids: if tid in all_tasks: …`
unfoldable pub question_blockers :
    Dict Value TaskState
    → List QuestionState
    → Dict Value (List Value)
    → Result (Dict Value (List Value))
question_blockers all_tasks = for_each (λ blockers q. do
  ids ← iterate q.blocks_task_ids
  for_each
      (λ blockers tid.
        if hashable tid
        then (if Dict.has Value_discrete tid all_tasks
            then add_blocker tid q.question_id blockers
            else ok blockers)
        else raise type_error)
      ids blockers)

-- `a < b`: texts by their characters, numbers and truth values by size; anything else raises.
abbrev int_value : Value → Option ℤ
int_value (num n) = some n
int_value (bool true) = some (pos 1)
int_value (bool false) = some (pos 0)
int_value v = none

abbrev less_int : ℤ → ℤ → Bool
less_int (pos a) (pos b) = ltb a b
less_int (pos a) (negsuc b) = false
less_int (negsuc a) (pos b) = true
less_int (negsuc a) (negsuc b) = ltb b a

abbrev less_number : Option ℤ → Option ℤ → Result Bool
less_number (some a) (some b) = ok (less_int a b)
less_number (some a) none = raise type_error
less_number none b = raise type_error

unfoldable pub less : Value → Value → Result Bool
less (text s) (text t) = ok (elim (compare_text s t) [ Ordering.lt ↦ true | _ ↦ false ])
less a b = less_number (int_value a) (int_value b)

unfoldable pub insert_sorted : Value → List Value → Result (List Value)
insert_sorted x [] = ok (x ∷ [])
insert_sorted x (y ∷ ys) = do
  after ← less y x
  elim after [ true ↦ do rest ← insert_sorted x ys; ok (y ∷ rest) | false ↦ ok (x ∷ y ∷ ys) ]

-- `sorted(values)`
unfoldable pub sorted : List Value → Result (List Value)
sorted [] = ok []
sorted (x ∷ xs) = do rest ← sorted xs; insert_sorted x rest

-- `[{…} for tid, qids in blocker_map.items() if tid in all_tasks]`
unfoldable pub list_blockers :
    Dict Value TaskState → Dict Value (List Value) → Result (List Blocker)
list_blockers all_tasks [] = ok []
list_blockers all_tasks ((tid, qids) ∷ blocker_map) = elim (Dict.get Value_discrete tid all_tasks) [
  | none ↦ list_blockers all_tasks blocker_map
  | some task ↦ do
    question_ids ← sorted qids
    rest ← list_blockers all_tasks blocker_map
    ok (
        record { task_id = tid; task_title = task.title; blocked_by_questions = question_ids }
        ∷ rest)
]

-- What the reducers leave, before a head is built.
pub record ReducedState : Type 0 where
  pub project : ProjectState
  pub tasks : Dict Value TaskState
  pub decisions : Dict Value DecisionState
  pub questions : Dict Value QuestionState

-- `max(e.version for e in events) if events else 0`
unfoldable pub latest_version : List EventRecord → ℕ
latest_version events = get_or (max_of (map (λ e. e.version) events)) 0

abbrev pub is_active_task : TaskState → Bool
is_active_task t = not (is_text "completed" t.status)

-- The lists of a head that are computed from tasks and questions.
pub record HeadLists : Type 0 where
  pub active_tasks : List TaskState
  pub open_questions : List QuestionState
  pub blockers : List Blocker

unfoldable pub head_lists : Dict Value TaskState → Dict Value QuestionState → Result HeadLists
head_lists all_tasks all_questions = do
  open_questions ←
      sort_by_priority (λ q. q.priority)
        (keep (λ q. is_text "open" q.status) (values all_questions))
  active_tasks ← sort_by_priority (λ t. t.priority) (keep is_active_task (values all_tasks))
  open_question_ids ← hash_all (map (λ q. q.question_id) open_questions)
  by_tasks ← task_blockers open_question_ids active_tasks []
  blocker_map ← question_blockers all_tasks open_questions by_tasks
  blockers ← list_blockers all_tasks blocker_map
  ok (record { active_tasks = active_tasks; open_questions = open_questions; blockers = blockers })

abbrev pub head_of : String → String → ReducedState → ℕ → HeadLists → CognitiveHead
head_of project_id compiled_at s ledger_version lists = record {
  project_id = project_id;
  project_name = s.project.name;
  project_goal = s.project.goal;
  current_focus = s.project.current_focus;
  ledger_version = ledger_version;
  compiled_at = compiled_at;
  active_tasks = lists.active_tasks;
  active_decisions = keep (λ d. is_text "accepted" d.status) (values s.decisions);
  open_questions = lists.open_questions;
  blockers = lists.blockers;
}

unfoldable pub build_head : String → String → ReducedState → ℕ → Result CognitiveHead
build_head project_id compiled_at s ledger_version = do
  lists ← head_lists s.tasks s.questions
  ok (head_of project_id compiled_at s ledger_version lists)
