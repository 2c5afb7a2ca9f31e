-- ===== src/CognitiveHead/Engine/Restore.antt =====
-- States that are stored in a payload and restored from it, and reducers that go on from a state
-- (replay_engine.py, reducers.py and snapshot_payload.py of cognitive_head/).
use rationale_vault.Prelude.{
  List, [], ◌∷◌, ◌++◌, Result, ok, ◌>>=◌, >>=-inv, ◌≡◌, refl, ◌∙◌, ap, All, All-imp, text_discrete,
}
use mathlib.Core.Path.{subst}
use rationale_vault.Prelude.Dict
use rationale_vault.Prelude.Dict.{Dict}
use rationale_vault.Value.{Value, Payload, IsList, list_of_lem, null, text, lookup, lookup_or}
use rationale_vault.Events.{
  EventRecord, EventType, project_created, project_goal_set, project_focus_changed, for_each,
  for_each-append,
}
use rationale_vault.CognitiveHead.States.{ProjectState, TaskState, DecisionState, QuestionState}
use rationale_vault.CognitiveHead.Tasks.{reduce_tasks, task_round}
use rationale_vault.CognitiveHead.Reducers.{
  reduce_project, reduce_decisions, reduce_questions, project_round, decision_round, question_round,
}
use rationale_vault.CognitiveHead.Head.{ReducedState}
use rationale_vault.CognitiveHead.Payload.{
  PayloadBody, task_to_dict, decision_to_dict, question_to_dict, dict_to_task_state,
  dict_to_decision_state, dict_to_question_state, map_values, map_values_result,
}
use rationale_vault.CognitiveHead.Engine.{reduce_all, restore}

reduce_project-append :
    (xs ys : List EventRecord) (s : ProjectState)
    → reduce_project (xs ++ ys) s ≡ (reduce_project xs s >>= reduce_project ys)
unfolding reduce_project
reduce_project-append = for_each-append (λ state e. project_round e.event_type e state)

reduce_tasks-append :
    (xs ys : List EventRecord) (s : Dict Value TaskState)
    → reduce_tasks (xs ++ ys) s ≡ (reduce_tasks xs s >>= reduce_tasks ys)
unfolding reduce_tasks
reduce_tasks-append = for_each-append (λ tasks e. task_round e.event_type e tasks)

reduce_decisions-append :
    (xs ys : List EventRecord) (s : Dict Value DecisionState)
    → reduce_decisions (xs ++ ys) s ≡ (reduce_decisions xs s >>= reduce_decisions ys)
unfolding reduce_decisions
reduce_decisions-append = for_each-append (λ decisions e. decision_round e.event_type e decisions)

reduce_questions-append :
    (xs ys : List EventRecord) (s : Dict Value QuestionState)
    → reduce_questions (xs ++ ys) s ≡ (reduce_questions xs s >>= reduce_questions ys)
unfolding reduce_questions
reduce_questions-append = for_each-append (λ questions e. question_round e.event_type e questions)

abbrev pub reduced :
    ProjectState
    → Dict Value TaskState
    → Dict Value DecisionState
    → Dict Value QuestionState
    → ReducedState
reduced project tasks decisions questions = record {
  project = project;
  tasks = tasks;
  decisions = decisions;
  questions = questions;
}

pub reduce_all-inv :
    (events : List EventRecord) (s s' : ReducedState)
    → reduce_all events s ≡ ok s'
    → (reduce_project events s.project ≡ ok s'.project)
      × (reduce_tasks events s.tasks ≡ ok s'.tasks)
      × (reduce_decisions events s.decisions ≡ ok s'.decisions)
      × (reduce_questions events s.questions ≡ ok s'.questions)
unfolding reduce_all
reduce_all-inv events s s' h =
    let (project, h1, e1) =
      >>=-inv (reduce_project events s.project)
        (λ (p : ProjectState). do
          t ← reduce_tasks events s.tasks
          d ← reduce_decisions events s.decisions
          q ← reduce_questions events s.questions
          ok (reduced p t d q))
        h in
    let (tasks, h2, e2) =
      >>=-inv (reduce_tasks events s.tasks)
        (λ (t : Dict Value TaskState). do
          d ← reduce_decisions events s.decisions
          q ← reduce_questions events s.questions
          ok (reduced project t d q))
        e1 in
    let (decisions, h3, e3) =
      >>=-inv (reduce_decisions events s.decisions)
        (λ (d : Dict Value DecisionState). do
          q ← reduce_questions events s.questions
          ok (reduced project tasks d q))
        e2 in
    let (questions, h4, e4) =
      >>=-inv (reduce_questions events s.questions)
        (λ (q : Dict Value QuestionState). ok (reduced project tasks decisions q)) e3 in
    let e : reduced project tasks decisions questions ≡ s' = cc e4 in
    (
      h1 ∙ ap (λ r. ok r.project) e,
      h2 ∙ ap (λ r. ok r.tasks) e,
      h3 ∙ ap (λ r. ok r.decisions) e,
      h4 ∙ ap (λ r. ok r.questions) e,
    )

-- Where the reducers get through the first events, the rest is replayed from the state that they
-- leave, as if all events had been replayed at once, and raises the same exception.
pub reduce_all-append :
    (xs ys : List EventRecord) (s middle : ReducedState)
    → reduce_all xs s ≡ ok middle
    → reduce_all (xs ++ ys) s ≡ reduce_all ys middle
unfolding reduce_all
reduce_all-append xs ys s middle h =
    let (h1, h2, h3, h4) = reduce_all-inv xs s middle h in
    rw (
      reduce_project-append xs ys s.project,
      h1,
      reduce_tasks-append xs ys s.tasks,
      h2,
      reduce_decisions-append xs ys s.decisions,
      h3,
      reduce_questions-append xs ys s.questions,
      h4,
    )

task_to_dict-back :
    (t : TaskState)
    → IsList t.tags
    → IsList t.blocked_by
    → IsList t.progress_notes
    → IsList t.related_knowledge_ids
    → dict_to_task_state (task_to_dict t) ≡ ok t
unfolding dict_to_task_state task_to_dict lookup lookup_or Dict.get text_discrete
task_to_dict-back t h1 h2 h3 h4 = rw (
  list_of_lem t.tags h1,
  list_of_lem t.blocked_by h2,
  list_of_lem t.progress_notes h3,
  list_of_lem t.related_knowledge_ids h4,
)

decision_to_dict-back : (d : DecisionState) → dict_to_decision_state (decision_to_dict d) ≡ ok d
unfolding dict_to_decision_state decision_to_dict lookup lookup_or Dict.get text_discrete
decision_to_dict-back d = refl

question_to_dict-back :
    (q : QuestionState)
    → IsList q.blocks_task_ids
    → dict_to_question_state (question_to_dict q) ≡ ok q
unfolding dict_to_question_state question_to_dict lookup lookup_or Dict.get text_discrete
question_to_dict-back q h = rw (list_of_lem q.blocks_task_ids h)

-- The four list fields of every task, and that of every question, hold lists.
abbrev pub HasLists : ReducedState → Type 0
HasLists s =
    All
      (λ e.
        IsList e.1.tags
        × IsList e.1.blocked_by
        × IsList e.1.progress_notes
        × IsList e.1.related_knowledge_ids)
      s.tasks
    × All (λ e. IsList e.1.blocks_task_ids) s.questions

pub map_values_result-back :
    {A : Type 0} (to : A → Payload) (from : Payload → Result A) (d : Dict Value A)
    → All (λ e. from (to e.1) ≡ ok e.1) d
    → map_values_result from (map_values to d) ≡ ok d
unfolding map_values map_values_result
map_values_result-back to from [] h = refl
map_values_result-back to from ((k, a) ∷ d) h = rw (h.0, map_values_result-back to from d h.1)

pub All-always : {A : Type 0} (P : A → Type 0) → ((x : A) → P x) → (xs : List A) → All P xs
All-always P f [] = tt
All-always P f (x ∷ xs) = (f x, All-always P f xs)

-- What a payload gives of the project.
abbrev pub restored_project : PayloadBody → ProjectState
restored_project p = record {
  name = p.project_name;
  goal = p.project_goal;
  current_focus = p.current_focus;
  created_at = null;
  created_by = text "";
}

-- The payload holds the full state of the reducers.
abbrev pub Captures : PayloadBody → ReducedState → Type 0
Captures p s =
    (p.tasks ≡ map_values task_to_dict s.tasks)
    × (p.decisions ≡ map_values decision_to_dict s.decisions)
    × (p.questions ≡ map_values question_to_dict s.questions)
    × (p.project_name ≡ s.project.name)
    × (p.project_goal ≡ s.project.goal)
    × (p.current_focus ≡ s.project.current_focus)

pub restore-captured :
    (p : PayloadBody) (s : ReducedState)
    → Captures p s
    → HasLists s
    → restore p ≡ ok (reduced (restored_project p) s.tasks s.decisions s.questions)
unfolding restore
restore-captured p s (h1, h2, h3, _, _, _) lists = rw (
  h1,
  h2,
  h3,
  map_values_result-back task_to_dict dict_to_task_state s.tasks
      (All-imp _ _ (λ e h. task_to_dict-back e.1 h.0 h.1 h.2 h.3) s.tasks lists.0),
  map_values_result-back decision_to_dict dict_to_decision_state s.decisions
      (All-always _ (λ e. decision_to_dict-back e.1) s.decisions),
  map_values_result-back question_to_dict dict_to_question_state s.questions
      (All-imp _ _ (λ e h. question_to_dict-back e.1 h) s.questions lists.1),
)

abbrev pub SameProject : ProjectState → ProjectState → Type 0
SameProject a b = (a.name ≡ b.name) × (a.goal ≡ b.goal) × (a.current_focus ≡ b.current_focus)

project_round-same :
    (t : EventType) (e : EventRecord) (a b a' : ProjectState)
    → SameProject a b
    → project_round t e a ≡ ok a'
    → (b' : ProjectState) × (project_round t e b ≡ ok b') × SameProject a' b'
unfolding project_round
project_round-same project_created e a b a' same h = (_, refl, (cc, cc, cc))
project_round-same project_goal_set e a b a' same h = (_, refl, (cc, cc, cc))
project_round-same project_focus_changed e a b a' same h = (_, refl, (cc, cc, cc))
project_round-same _ e a b a' same h =
    let c : a ≡ a' = cc h in (b, refl, subst (λ x. SameProject x b) c same)

-- The project reducer reads nothing of a state, so that it keeps what two states share.
pub reduce_project-same :
    (events : List EventRecord) (a b a' : ProjectState)
    → SameProject a b
    → reduce_project events a ≡ ok a'
    → (b' : ProjectState) × (reduce_project events b ≡ ok b') × SameProject a' b'
unfolding reduce_project for_each
reduce_project-same [] a b a' same h =
    let c : a ≡ a' = cc h in (b, refl, subst (λ x. SameProject x b) c same)
reduce_project-same (e ∷ events) a b a' same h =
    let (a1, h1, rest) = >>=-inv (project_round e.event_type e a) (reduce_project events) h in
    let (b1, k1, same1) = project_round-same e.event_type e a b a1 same h1 in
    let (b', k, same') = reduce_project-same events a1 b1 a' same1 rest in (b', rw k1 k, same')
