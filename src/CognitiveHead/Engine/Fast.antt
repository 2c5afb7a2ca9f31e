-- ===== src/CognitiveHead/Engine/Fast.antt =====
-- The fast path (replay_engine.py, snapshot_payload.py of cognitive_head/).
use rationale_vault.Prelude.{String, true, false, ok, ◌≡◌, refl}
use rationale_vault.Prelude.Dict.{values}
use rationale_vault.Value.{lookup, lookup_or, item}
use rationale_vault.EventStore.{EventTable, get_project_stream}
use rationale_vault.CognitiveHead.States.{TaskState, DecisionState, QuestionState}
use rationale_vault.CognitiveHead.Head.{ReducedState}
use rationale_vault.CognitiveHead.Payload.{
  PayloadBody, SnapshotPayload, task_to_dict, decision_to_dict, question_to_dict, stored_task,
  stored_decision, stored_question, to_cognitive_head, stored_head,
}
use rationale_vault.CognitiveHead.Engine.{
  ReplayResult, reduce_all, empty_state, full_replay, fast_replay, reused, snapshot_of,
}
use rationale_vault.CognitiveHead.Engine.Restore.{map_values_result-back, All-always}
use rationale_vault.CognitiveHead.Engine.Delta.{full_replay-head, snapshot_of-Captures}
use rationale_vault.Prelude.{text_discrete}
use rationale_vault.Prelude.Dict

stored_task-back : (t : TaskState) → stored_task (task_to_dict t) ≡ ok t
unfolding stored_task task_to_dict lookup lookup_or item Dict.get text_discrete
stored_task-back t = refl

stored_decision-back : (d : DecisionState) → stored_decision (decision_to_dict d) ≡ ok d
unfolding stored_decision decision_to_dict lookup lookup_or item Dict.get text_discrete
stored_decision-back d = refl

stored_question-back : (q : QuestionState) → stored_question (question_to_dict q) ≡ ok q
unfolding stored_question question_to_dict lookup lookup_or item Dict.get text_discrete
stored_question-back q = refl

-- The fast path on the snapshot of a full replay gives a head whose active tasks are all tasks,
-- completed ones included, whose active decisions are all decisions, proposed and superseded ones
-- included, and whose open questions are all questions, resolved ones included, each in the order in
-- which it was first stored.
pub fast_replay-lists_all :
    (digest : PayloadBody → String) (t : EventTable) (project_id before now : String)
    (r0 : ReplayResult) (s : ReducedState) (p : SnapshotPayload)
    → full_replay t project_id before false 0 ≡ ok r0
    → snapshot_of digest t project_id r0.head ≡ ok p
    → reduce_all (get_project_stream t project_id 0) empty_state ≡ ok s
    → (r : ReplayResult) × (fast_replay t project_id now true p ≡ ok r)
      × (r.head.active_tasks ≡ values s.tasks)
      × (r.head.active_decisions ≡ values s.decisions)
      × (r.head.open_questions ≡ values s.questions)
unfolding fast_replay to_cognitive_head
fast_replay-lists_all digest t project_id before now r0 s p h0 snapshot reduced_to =
    let built = full_replay-head t project_id before s r0 reduced_to h0 in
    let ((tasks, decisions, questions, _, _, _), _) =
      snapshot_of-Captures digest t project_id before s _ r0.head p reduced_to built snapshot in
    (
      reused t project_id now true p (stored_head p.body s.tasks s.decisions s.questions),
      rw
          (
            tasks,
            map_values_result-back task_to_dict stored_task s.tasks
                (All-always _ (λ e. stored_task-back e.1) s.tasks),
            decisions,
            map_values_result-back decision_to_dict stored_decision s.decisions
                (All-always _ (λ e. stored_decision-back e.1) s.decisions),
            questions,
            map_values_result-back question_to_dict stored_question s.questions
                (All-always _ (λ e. stored_question-back e.1) s.questions),
          )
          refl,
      refl,
      refl,
      refl,
    )
