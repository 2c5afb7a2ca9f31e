-- ===== src/CognitiveHead/Reducers/Independence.antt =====
-- Tasks, decisions and questions with different ids do not depend on each other in the reducers of
-- cognitive_head/reducers.py.
use rationale_vault.Prelude.{
  String, Bool, true, false, Bool-cases, List, [], ◌∷◌, Result, ok, ◌>>=◌, >>=-inv, ◌≡◌, ◌≢◌, refl,
  sym, ◌∙◌, ap, inl, inr, keep, if◌then◌else◌,
}
use mathlib.Core.Logic.{ite}
use mathlib.Core.Path.{subst}
use rationale_vault.Prelude.Dict.{Dict}
use rationale_vault.Value.{Value, Value_discrete, lookup, truthy}
use rationale_vault.Events.{
  EventRecord, EventType, for_each, task_created, task_mutated, task_completed, task_progress_noted,
  decision_proposed, decision_accepted, decision_superseded, open_question_raised,
  open_question_resolved,
}
use rationale_vault.CognitiveHead.States.{TaskState, DecisionState, QuestionState, store, update}
use rationale_vault.CognitiveHead.States.Updates.{
  find, store-other, store-own, update-other, update-own,
}
use rationale_vault.CognitiveHead.Tasks.{
  new_task, mutate_task, complete_task, note_progress, task_round, reduce_tasks,
}
use rationale_vault.CognitiveHead.Reducers.{
  new_decision, accept_decision, supersede_decision, decision_round, reduce_decisions, new_question,
  resolve_question, question_round, reduce_questions,
}

-- The payload of the event has the id under the key.
abbrev pub names : String → Value → EventRecord → Bool
names key id e = ite (Value_discrete (lookup e.payload key) id) true false

-- A state that is stored under a truthy id, if it is made.
make : {A : Type 0} → Value → Result A → Dict Value A → Result (Dict Value A)
make id made d = if truthy id then (made >>= λ s. store id s d) else ok d

module _ {A : Type 0} where
  -- A round leaves other ids alone, and gives its own id the same state whatever else is there.
  abbrev IsLocal : Value → (Dict Value A → Result (Dict Value A)) → Type 0
  IsLocal own round =
      ((id : Value) (d d' : Dict Value A) → own ≢ id → round d ≡ ok d' → find id d' ≡ find id d)
      × ((d e d' : Dict Value A)
          → find own d ≡ find own e
          → round d ≡ ok d'
          → (e' : Dict Value A) × (round e ≡ ok e') × (find own d' ≡ find own e'))

  skip-IsLocal : (own : Value) → IsLocal own ok
  skip-IsLocal own = (
    (λ id d d' ne h. let c : d ≡ d' = cc h in ap (find id) (sym c)),
    (λ d e d' same h. let c : d ≡ d' = cc h in (e, refl, ap (find own) (sym c) ∙ same)),
  )

  update-IsLocal : (own : Value) (change : A → Result A) → IsLocal own (update own change)
  update-IsLocal own change = (
    (λ id d d' ne h. update-other own id change d d' ne h),
    (λ d e d' same h. update-own own change d e d' same h),
  )

  make-IsLocal : (own : Value) (made : Result A) → IsLocal own (make own made)
  unfolding make
  make-IsLocal own made = (
    (λ id d d' ne h. elim (Bool-cases (truthy own)) [
      | inr b ↦ let h' : ok d ≡ ok d' = rw b at h in let c : d ≡ d' = cc h' in ap (find id) (sym c)
      | inl b ↦
          let h' : (made >>= λ s. store own s d) ≡ ok d' = rw b at h in
          let (s, g, k) = >>=-inv made (λ s. store own s d) h' in store-other own id s d d' ne k
    ]),
    (λ d e d' same h. elim (Bool-cases (truthy own)) [
      | inr b ↦
          let h' : ok d ≡ ok d' = rw b at h in
          let c : d ≡ d' = cc h' in (e, rw b refl, ap (find own) (sym c) ∙ same)
      | inl b ↦
          let h' : (made >>= λ s. store own s d) ≡ ok d' = rw b at h in
          let (s, g, k) = >>=-inv made (λ s. store own s d) h' in
          let (e', stored, found) = store-own own s d e d' k in (e', rw (b, g) stored, found)
    ]),
  )

  -- In a loop of local rounds an id has the state that the events which name it give.
  loop_alone :
      (key : String) (round : Dict Value A → EventRecord → Result (Dict Value A))
      → ((e : EventRecord) → IsLocal (lookup e.payload key) (λ d. round d e))
      → (id : Value) (events : List EventRecord) (d e d' : Dict Value A) → find id d ≡ find id e
      → for_each round events d ≡ ok d'
      → (e' : Dict Value A) × (for_each round (keep (names key id) events) e ≡ ok e')
        × (find id d' ≡ find id e')
  unfolding for_each
  loop_alone key round local id [] d e d' same h =
      let c : d ≡ d' = cc h in (e, refl, ap (find id) (sym c) ∙ same)
  loop_alone key round local id (x ∷ events) d e d' same h =
      let (d1, h1, rest) = >>=-inv (round d x) (for_each round events) h in
      elim (Value_discrete (lookup x.payload key) id)
        as (λ b.
          (e' : Dict Value A) × (for_each round
              (if ite b true false
                then x ∷ keep (names key id) events
                else keep (names key id) events)
              e
            ≡ ok e')
          × (find id d' ≡ find id e')) [
            | yes own ↦
                let step =
                  subst
                    (λ i.
                      (a b a' : Dict Value A)
                      → find i a ≡ find i b
                      → round a x ≡ ok a'
                      → (b' : Dict Value A) × (round b x ≡ ok b') × (find i a' ≡ find i b'))
                    own (local x).1 in
                let (e1, k1, same1) = step d e d1 same h1 in
                let (e', k, found) = loop_alone key round local id events d1 e1 d' same1 rest in
                (e', rw k1 k, found)
            | no other ↦
                loop_alone key round local id events d1 e d' ((local x).0 id d d1 other h1 ∙ same)
                  rest
          ]

task_round-IsLocal :
    (type : EventType) (e : EventRecord) → IsLocal (lookup e.payload "task_id") (task_round type e)
unfolding task_round make
task_round-IsLocal task_created e =
    make-IsLocal (lookup e.payload "task_id") (new_task (lookup e.payload "task_id") e)
task_round-IsLocal task_mutated e = update-IsLocal (lookup e.payload "task_id") (mutate_task e)
task_round-IsLocal task_completed e = update-IsLocal (lookup e.payload "task_id") (complete_task e)
task_round-IsLocal task_progress_noted e =
    update-IsLocal (lookup e.payload "task_id") (note_progress e)
task_round-IsLocal _ e = skip-IsLocal (lookup e.payload "task_id")

decision_round-IsLocal :
    (type : EventType) (e : EventRecord)
    → IsLocal (lookup e.payload "decision_id") (decision_round type e)
unfolding decision_round make
decision_round-IsLocal decision_proposed e =
    make-IsLocal (lookup e.payload "decision_id")
      (ok (new_decision (lookup e.payload "decision_id") e))
decision_round-IsLocal decision_accepted e =
    update-IsLocal (lookup e.payload "decision_id") (accept_decision e)
decision_round-IsLocal decision_superseded e =
    update-IsLocal (lookup e.payload "decision_id") (supersede_decision e)
decision_round-IsLocal _ e = skip-IsLocal (lookup e.payload "decision_id")

question_round-IsLocal :
    (type : EventType) (e : EventRecord)
    → IsLocal (lookup e.payload "question_id") (question_round type e)
unfolding question_round make
question_round-IsLocal open_question_raised e =
    make-IsLocal (lookup e.payload "question_id") (new_question (lookup e.payload "question_id") e)
question_round-IsLocal open_question_resolved e =
    update-IsLocal (lookup e.payload "question_id") (resolve_question e)
question_round-IsLocal _ e = skip-IsLocal (lookup e.payload "question_id")

-- Where a replay gets through, the events that name one task, decision or question are replayed
-- alone without an exception, and give that one the same state.
pub reduce_alone :
    (events : List EventRecord) (id : Value) (tasks : Dict Value TaskState)
    (decisions : Dict Value DecisionState) (questions : Dict Value QuestionState)
    → reduce_tasks events [] ≡ ok tasks
    → reduce_decisions events [] ≡ ok decisions
    → reduce_questions events [] ≡ ok questions
    → ((alone : Dict Value TaskState) × (reduce_tasks (keep (names "task_id" id) events) []
          ≡ ok alone)
        × (find id tasks ≡ find id alone))
      × ((alone : Dict Value DecisionState) × (reduce_decisions
              (keep (names "decision_id" id) events)
              []
            ≡ ok alone)
          × (find id decisions ≡ find id alone))
      × ((alone : Dict Value QuestionState) × (reduce_questions
              (keep (names "question_id" id) events)
              []
            ≡ ok alone)
          × (find id questions ≡ find id alone))
unfolding reduce_tasks reduce_decisions reduce_questions
reduce_alone events id tasks decisions questions h1 h2 h3 = (
  loop_alone "task_id" (λ d e. task_round e.event_type e d) (λ e. task_round-IsLocal e.event_type e)
      id events [] [] tasks refl h1,
  loop_alone "decision_id" (λ d e. decision_round e.event_type e d)
      (λ e. decision_round-IsLocal e.event_type e) id events [] [] decisions refl h2,
  loop_alone "question_id" (λ d e. question_round e.event_type e d)
      (λ e. question_round-IsLocal e.event_type e) id events [] [] questions refl h3,
)
