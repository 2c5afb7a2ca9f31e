-- ===== src/CognitiveHead/Reducers/Invariants.antt =====
-- What holds of every task, decision and question that the reducers of cognitive_head/reducers.py
-- leave.
use rationale_vault.Prelude.{
  Bool-cases, List, Result, ok, Ensures, Result-cases, Ensures-ok, ◌>>=◌, >>=-inv, ◌≡◌, refl, ◌∙◌,
  inl, inr, ◌⊎◌, All, if◌then◌else◌,
}
use mathlib.Core.Path.{subst}
use rationale_vault.Prelude.Dict.{Dict}
use rationale_vault.Value.{
  Value, text, lookup, lookup_or, list_of, item, subscript, arr, null, bool, num, obj, empty_list,
  truthy,
}
use rationale_vault.Events.{
  EventRecord, EventType, for_each-keeps, for_each-keeps_on, task_created, task_mutated,
  task_completed, task_progress_noted, decision_proposed, decision_accepted, decision_superseded,
  open_question_raised, open_question_resolved,
}
use rationale_vault.CognitiveHead.States.{TaskState, DecisionState, QuestionState, store}
use rationale_vault.CognitiveHead.States.Updates.{store-All, update-All}
use rationale_vault.CognitiveHead.Tasks.{
  new_task, mutate_task, complete_task, note_progress, noted, task_round, reduce_tasks,
}
use rationale_vault.CognitiveHead.Reducers.Mutation.{IsPlain, mutate_task-task_id}
use rationale_vault.CognitiveHead.Head.{ReducedState}
use rationale_vault.CognitiveHead.Engine.{reduce_all}
use rationale_vault.CognitiveHead.Engine.Restore.{reduce_all-inv}
use rationale_vault.CognitiveHead.Reducers.{
  new_decision, accept_decision, supersede_decision, decision_round, reduce_decisions, new_question,
  resolve_question, question_round, reduce_questions,
}

-- A decision stands under its id and is proposed, accepted or superseded.
abbrev pub IsDecision : (Value × DecisionState) → Type 0
IsDecision (id, d) =
    (d.decision_id ≡ id)
    × ((d.status ≡ text "proposed")
        ⊎ ((d.status ≡ text "accepted") ⊎ (d.status ≡ text "superseded")))

-- A question stands under its id and is open or resolved.
abbrev pub IsQuestion : (Value × QuestionState) → Type 0
IsQuestion (id, q) =
    (q.question_id ≡ id) × ((q.status ≡ text "open") ⊎ (q.status ≡ text "resolved"))

-- A task stands under its id.
abbrev pub IsTask : (Value × TaskState) → Type 0
IsTask (id, t) = t.task_id ≡ id

new_question-IsQuestion :
    (id : Value) (e : EventRecord) (q : QuestionState)
    → new_question id e ≡ ok q
    → IsQuestion (id, q)
unfolding new_question
new_question-IsQuestion id e q =
    Ensures-ok (λ q. IsQuestion (id, q)) (new_question id e) q
      (elim (Result-cases (list_of (lookup_or e.payload "blocks_task_ids" empty_list))) [
        | inl (blocks, h) ↦ rw h (refl, inl refl)
        | inr (x, h) ↦ rw h tt
      ])

new_task-IsTask :
    (id : Value) (e : EventRecord) (t : TaskState) → new_task id e ≡ ok t → t.task_id ≡ id
unfolding new_task
new_task-IsTask id e t =
    Ensures-ok (λ t. IsTask (id, t)) (new_task id e) t
      (elim (Result-cases (item e.payload "details")) [
        | inr (x, h) ↦ rw h tt
        | inl (details, h) ↦ rw h (elim (Result-cases (subscript details "summary")) [
          | inr (x, h) ↦ rw h tt
          | inl (title, h) ↦ rw h (elim (Result-cases (subscript details "body")) [
            | inr (x, h) ↦ rw h tt
            | inl (description, h) ↦
                rw h (elim (Result-cases (list_of (lookup_or e.payload "tags" empty_list))) [
                  | inr (x, h) ↦ rw h tt
                  | inl (tags, h) ↦
                      rw h
                        (elim (Result-cases
                          (list_of (lookup_or e.payload "blocked_by" empty_list))) [
                            | inr (x, h) ↦ rw h tt
                            | inl (blocked_by, h) ↦ rw h refl
                          ])
                ])
          ])
        ])
      ])

note_progress-task_id :
    (e : EventRecord) (t t' : TaskState) → note_progress e t ≡ ok t' → t'.task_id ≡ t.task_id
unfolding note_progress
note_progress-task_id e t t' =
    Ensures-ok (λ u. u.task_id ≡ t.task_id) (note_progress e t) t'
      (elim t.progress_notes as (λ v. Ensures (λ u. u.task_id ≡ t.task_id) (noted e t v)) [
        | arr notes ↦ refl
        | null ↦ tt
        | bool b ↦ tt
        | num n ↦ tt
        | text s ↦ tt
        | obj fs ↦ tt
      ])

-- A state that is stored under a truthy id, if it is made.
make-All :
    {A : Type 0} (P : (Value × A) → Type 0) (id : Value) (make : Result A) (d d' : Dict Value A)
    → ((s : A) → make ≡ ok s → P (id, s))
    → All P d
    → (if truthy id then (make >>= λ s. store id s d) else ok d) ≡ ok d'
    → All P d'
make-All P id make d d' made all h = elim (Bool-cases (truthy id)) [
  | inr b ↦ let h' : ok d ≡ ok d' = rw b at h in let c : d ≡ d' = cc h' in subst (All P) c all
  | inl b ↦
      let h' : (make >>= λ s. store id s d) ≡ ok d' = rw b at h in
      let (s, g, k) = >>=-inv make (λ s. store id s d) h' in store-All P id s d d' (made s g) all k
]

decision_round-keeps :
    (type : EventType) (e : EventRecord) (d d' : Dict Value DecisionState)
    → decision_round type e d ≡ ok d'
    → All IsDecision d
    → All IsDecision d'
unfolding decision_round accept_decision supersede_decision new_decision
decision_round-keeps decision_proposed e d d' h all =
    make-All IsDecision (lookup e.payload "decision_id")
      (ok (new_decision (lookup e.payload "decision_id") e)) d d' (λ s g. (cc g, inl (cc g))) all h
decision_round-keeps decision_accepted e d d' h all =
    update-All IsDecision (lookup e.payload "decision_id") (accept_decision e) d d'
      (λ s s' g p. (cc (g, p.0), inr (inl (cc g)))) all h
decision_round-keeps decision_superseded e d d' h all =
    update-All IsDecision (lookup e.payload "decision_id") (supersede_decision e) d d'
      (λ s s' g p. (cc (g, p.0), inr (inr (cc g)))) all h
decision_round-keeps _ e d d' h all = let c : d ≡ d' = cc h in subst (All IsDecision) c all

question_round-keeps :
    (type : EventType) (e : EventRecord) (d d' : Dict Value QuestionState)
    → question_round type e d ≡ ok d'
    → All IsQuestion d
    → All IsQuestion d'
unfolding question_round resolve_question
question_round-keeps open_question_raised e d d' h all =
    make-All IsQuestion (lookup e.payload "question_id")
      (new_question (lookup e.payload "question_id") e) d d' (new_question-IsQuestion _ e) all h
question_round-keeps open_question_resolved e d d' h all =
    update-All IsQuestion (lookup e.payload "question_id") (resolve_question e) d d'
      (λ s s' g p. (cc (g, p.0), inr (cc g))) all h
question_round-keeps _ e d d' h all = let c : d ≡ d' = cc h in subst (All IsQuestion) c all

task_round-keeps :
    (type : EventType) (e : EventRecord) (d d' : Dict Value TaskState)
    → (type ≡ task_mutated → IsPlain e.payload)
    → task_round type e d ≡ ok d'
    → All IsTask d
    → All IsTask d'
unfolding task_round complete_task
task_round-keeps task_created e d d' plain h all =
    make-All IsTask (lookup e.payload "task_id") (new_task (lookup e.payload "task_id") e) d d'
      (new_task-IsTask _ e) all h
task_round-keeps task_mutated e d d' plain h all =
    update-All IsTask (lookup e.payload "task_id") (mutate_task e) d d'
      (λ s s' g p. mutate_task-task_id e s s' (plain refl) g ∙ p) all h
task_round-keeps task_completed e d d' plain h all =
    update-All IsTask (lookup e.payload "task_id") (complete_task e) d d' (λ s s' g p. cc (g, p))
      all h
task_round-keeps task_progress_noted e d d' plain h all =
    update-All IsTask (lookup e.payload "task_id") (note_progress e) d d'
      (λ s s' g p. note_progress-task_id e s s' g ∙ p) all h
task_round-keeps _ e d d' plain h all = let c : d ≡ d' = cc h in subst (All IsTask) c all

-- However far a replay goes on from states in which every task stands under its id, every decision
-- also is proposed, accepted or superseded, and every question open or resolved, that holds of the
-- states that it leaves, whatever the payloads hold, but for one thing: no payload of a TASK_MUTATED
-- event has the key `__dict__`.
pub reduce_all-IsWellFormed :
    (events : List EventRecord) (s s' : ReducedState)
    → All (λ e. e.event_type ≡ task_mutated → IsPlain e.payload) events
    → reduce_all events s ≡ ok s'
    → All IsTask s.tasks × All IsDecision s.decisions × All IsQuestion s.questions
    → All IsTask s'.tasks × All IsDecision s'.decisions × All IsQuestion s'.questions
unfolding reduce_tasks reduce_decisions reduce_questions
reduce_all-IsWellFormed events s s' plain h (tasks, decisions, questions) =
    let (_, h1, h2, h3) = reduce_all-inv events s s' h in
    (
      for_each-keeps_on (All IsTask) (λ e. e.event_type ≡ task_mutated → IsPlain e.payload) _
          (λ d e d' q k. task_round-keeps e.event_type e d d' q k) events s.tasks s'.tasks plain h1
          tasks,
      for_each-keeps (All IsDecision) _ (λ d e d' k. decision_round-keeps e.event_type e d d' k)
          events s.decisions s'.decisions h2 decisions,
      for_each-keeps (All IsQuestion) _ (λ d e d' k. question_round-keeps e.event_type e d d' k)
          events s.questions s'.questions h3 questions,
    )
