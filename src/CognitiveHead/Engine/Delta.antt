-- ===== src/CognitiveHead/Engine/Delta.antt =====
-- Delta replay (replay_engine.py of cognitive_head/) against full replay.
use rationale_vault.Prelude.{
  ℕ, String, true, false, List, Result-cases, ok, raise, ◌≡◌, refl, sym, ◌∙◌, ap, inl, inr,
}
use mathlib.Core.Path.{subst}
use rationale_vault.Value.{null, text}
use rationale_vault.Events.{EventRecord}
use rationale_vault.EventStore.{EventTable, get_project_stream, get_latest_sequence}
use rationale_vault.EventStore.Streams.{IsOrdered, Grows, get_project_stream-Grows}
use rationale_vault.CognitiveHead.States.{ProjectState}
use rationale_vault.CognitiveHead.Tasks.{reduce_tasks}
use rationale_vault.CognitiveHead.Reducers.{reduce_decisions, reduce_questions, reduce_project}
use rationale_vault.CognitiveHead.Head.{
  CognitiveHead, ReducedState, head_lists, build_head, head_of, latest_version,
}
use rationale_vault.CognitiveHead.Payload.{
  PayloadBody, SnapshotPayload, from_cognitive_head, with_hash, map_values, task_to_dict,
  decision_to_dict, question_to_dict,
}
use rationale_vault.CognitiveHead.Engine.{
  ReplayResult, reduce_all, empty_state, restore, check_bootstrap, full, delta, replayed,
  full_replay, delta_replay, snapshot_of,
}
use rationale_vault.CognitiveHead.Engine.Restore.{
  HasLists, Captures, reduced, restored_project, SameProject, restore-captured, reduce_all-append,
  reduce_all-inv, reduce_project-same,
}

-- Equal but for the ledger version.
abbrev pub SameHead : CognitiveHead → CognitiveHead → Type 0
SameHead a b =
    (a.project_id ≡ b.project_id)
    × (a.project_name ≡ b.project_name)
    × (a.project_goal ≡ b.project_goal)
    × (a.current_focus ≡ b.current_focus)
    × (a.compiled_at ≡ b.compiled_at)
    × (a.active_tasks ≡ b.active_tasks)
    × (a.active_decisions ≡ b.active_decisions)
    × (a.open_questions ≡ b.open_questions)
    × (a.blockers ≡ b.blockers)

build_head-same :
    (project_id now : String) (p q : ProjectState) (s : ReducedState) (v w : ℕ)
    (head : CognitiveHead)
    → SameProject p q
    → build_head project_id now (reduced p s.tasks s.decisions s.questions) v ≡ ok head
    → (head' : CognitiveHead) × (build_head project_id now
          (reduced q s.tasks s.decisions s.questions)
          w
        ≡ ok head')
      × SameHead head head'
      × (head'.ledger_version ≡ w)
unfolding build_head
build_head-same project_id now p q s v w head same h =
    elim (Result-cases (head_lists s.tasks s.questions)) [
      | inl (lists, e) ↦
          let h' : ok (head_of project_id now (reduced p s.tasks s.decisions s.questions) v lists)
              ≡ ok head =
            rw e at h in
          let c : head_of project_id now (reduced p s.tasks s.decisions s.questions) v lists
              ≡ head =
            cc h' in
          let new = head_of project_id now (reduced q s.tasks s.decisions s.questions) w lists in
          (
            new,
            rw e refl,
            subst (λ x. SameHead x new) c
                (refl, same.0, same.1, same.2, refl, refl, refl, refl, refl),
            refl,
          )
      | inr (x, e) ↦ let h' : raise x ≡ ok head = rw e at h in absurd (cc h')
    ]

-- The head of a full replay is built from the state that the reducers leave.
pub full_replay-head :
    (t : EventTable) (project_id now : String) (s : ReducedState) (r : ReplayResult)
    → reduce_all (get_project_stream t project_id 0) empty_state ≡ ok s
    → full_replay t project_id now false 0 ≡ ok r
    → build_head project_id now s (latest_version (get_project_stream t project_id 0)) ≡ ok r.head
unfolding full_replay
full_replay-head t project_id now s r reduced_to h =
    elim (Result-cases (check_bootstrap (get_project_stream t project_id 0))) [
      | inl (u, e) ↦
          let events = get_project_stream t project_id 0 in
          elim (Result-cases (build_head project_id now s (latest_version events))) [
            | inl (head, b) ↦
                let h' : ok (replayed t project_id now full head events 0 false false 0) ≡ ok r =
                  rw (e, reduced_to, b) at h in
                let c : replayed t project_id now full head events 0 false false 0 ≡ r = cc h' in
                b ∙ ap (λ r. ok r.head) c
            | inr (x, b) ↦ let h' : raise x ≡ ok r = rw (e, reduced_to, b) at h in absurd (cc h')
          ]
      | inr (x, e) ↦ let h' : raise x ≡ ok r = rw e at h in absurd (cc h')
    ]

full_replay-inv :
    (t : EventTable) (project_id now : String) (r : ReplayResult)
    → full_replay t project_id now false 0 ≡ ok r
    → (s : ReducedState) × (reduce_all (get_project_stream t project_id 0) empty_state ≡ ok s)
      × (build_head project_id now s (latest_version (get_project_stream t project_id 0))
          ≡ ok r.head)
unfolding full_replay
full_replay-inv t project_id now r h =
    let events = get_project_stream t project_id 0 in
    elim (Result-cases (reduce_all events empty_state)) [
      | inl (s, e) ↦ (s, e, full_replay-head t project_id now s r e h)
      | inr (x, e) ↦ elim (Result-cases (check_bootstrap events)) [
        | inl (u, c) ↦ let h' : raise x ≡ ok r = rw (c, e) at h in absurd (cc h')
        | inr (y, c) ↦ let h' : raise y ≡ ok r = rw c at h in absurd (cc h')
      ]
    ]

-- What a payload made from the head restores of the project.
abbrev restored_head : CognitiveHead → ProjectState
restored_head head = record {
  name = head.project_name;
  goal = head.project_goal;
  current_focus = head.current_focus;
  created_at = null;
  created_by = text "";
}

build_head-project :
    (project_id now : String) (s : ReducedState) (v : ℕ) (head : CognitiveHead)
    → build_head project_id now s v ≡ ok head
    → SameProject (restored_head head) s.project
unfolding build_head
build_head-project project_id now s v head h =
    elim (Result-cases (head_lists s.tasks s.questions)) [
      | inl (lists, e) ↦
          let h' : ok (head_of project_id now s v lists) ≡ ok head = rw e at h in
          let c : head_of project_id now s v lists ≡ head = cc h' in
          subst (λ x. SameProject (restored_head x) s.project) c (refl, refl, refl)
      | inr (x, e) ↦ let h' : raise x ≡ ok head = rw e at h in absurd (cc h')
    ]

-- The payload of a compilation holds the state from which its head was built.
pub snapshot_of-Captures :
    (digest : PayloadBody → String) (t : EventTable) (project_id now : String) (s : ReducedState)
    (v : ℕ) (head : CognitiveHead) (p : SnapshotPayload)
    → reduce_all (get_project_stream t project_id 0) empty_state ≡ ok s
    → build_head project_id now s v ≡ ok head
    → snapshot_of digest t project_id head ≡ ok p
    → Captures p.body s × (p.body.sequence ≡ get_latest_sequence t project_id)
unfolding snapshot_of from_cognitive_head with_hash
snapshot_of-Captures digest t project_id now s v head p reduced_to built h =
    let (_, tasks, decisions, questions) = reduce_all-inv _ empty_state s reduced_to in
    let (name, goal, focus) = build_head-project project_id now s v head built in
    let made =
      from_cognitive_head digest head (get_latest_sequence t project_id)
        (map_values task_to_dict s.tasks) (map_values decision_to_dict s.decisions)
        (map_values question_to_dict s.questions) in
    let h' : ok made ≡ ok p = rw (tasks, decisions, questions) at h in
    let c : made ≡ p = cc h' in
    subst (λ q. Captures q.body s × (q.body.sequence ≡ get_latest_sequence t project_id)) c
      ((refl, refl, refl, name, goal, focus), refl)

reduce_all-ok :
    (events : List EventRecord) (s s' : ReducedState)
    → reduce_project events s.project ≡ ok s'.project
    → reduce_tasks events s.tasks ≡ ok s'.tasks
    → reduce_decisions events s.decisions ≡ ok s'.decisions
    → reduce_questions events s.questions ≡ ok s'.questions
    → reduce_all events s ≡ ok s'
unfolding reduce_all
reduce_all-ok events s s' h1 h2 h3 h4 = rw (h1, h2, h3, h4)

delta_replay-ok :
    (t : EventTable) (project_id now : String) (p : SnapshotPayload) (events : List EventRecord)
    (s s' : ReducedState) (head : CognitiveHead)
    → get_project_stream t project_id p.body.sequence ≡ events
    → restore p.body ≡ ok s
    → reduce_all events s ≡ ok s'
    → build_head project_id now s' (latest_version events) ≡ ok head
    → delta_replay t project_id now true p
      ≡ ok (replayed t project_id now delta head events p.body.sequence true true p.body.sequence)
unfolding delta_replay
delta_replay-ok t project_id now p events s s' head h1 h2 h3 h4 = rw (h1, h2, h3, h4)

-- A delta replay over a table that has grown, from the snapshot of an earlier full replay, gives the
-- head of a full replay but for the ledger version, which is the greatest version of the later
-- events only. It asks that the earlier state holds lists in the fields that are to hold them.
pub delta_replay-full :
    (digest : PayloadBody → String) (old new : EventTable) (project_id before now : String)
    (r0 r1 : ReplayResult) (s : ReducedState) (p : SnapshotPayload)
    → IsOrdered old
    → Grows old new
    → full_replay old project_id before false 0 ≡ ok r0
    → snapshot_of digest old project_id r0.head ≡ ok p
    → reduce_all (get_project_stream old project_id 0) empty_state ≡ ok s
    → HasLists s
    → full_replay new project_id now false 0 ≡ ok r1
    → (r2 : ReplayResult) × (delta_replay new project_id now true p ≡ ok r2)
      × SameHead r1.head r2.head
      × (r2.head.ledger_version
          ≡ latest_version (get_project_stream new project_id (get_latest_sequence old project_id)))
delta_replay-full digest old new project_id before now r0 r1 s p ordered grown h0 snapshot
      reduced_to lists h1 =
    let after = get_project_stream new project_id (get_latest_sequence old project_id) in
    let built0 = full_replay-head old project_id before s r0 reduced_to h0 in
    let (captured, sequence) =
      snapshot_of-Captures digest old project_id before s _ r0.head p reduced_to built0 snapshot in
    let (s1, reduced1, built1) = full_replay-inv new project_id now r1 h1 in
    let goes_on : reduce_all after s ≡ ok s1 =
      sym (reduce_all-append (get_project_stream old project_id 0) after empty_state s reduced_to)
      ∙ ap (λ events. reduce_all events empty_state)
          (sym (get_project_stream-Grows old new project_id ordered grown))
      ∙ reduced1 in
    let restored = restore-captured p.body s captured lists in
    let (_, _, _, name, goal, focus) = captured in
    let (project1, tasks1, decisions1, questions1) = reduce_all-inv after s s1 goes_on in
    let (project2, from_restored, same) =
      reduce_project-same after s.project (restored_project p.body) s1.project
        (sym name, sym goal, sym focus) project1 in
    let (head, built, same_head, version) =
      build_head-same project_id now s1.project project2 s1 _ (latest_version after) r1.head same
        built1 in
    (
      replayed new project_id now delta head after p.body.sequence true true p.body.sequence,
      delta_replay-ok new project_id now p after _ _ head
          (ap (get_project_stream new project_id) sequence) restored
          (reduce_all-ok after (reduced (restored_project p.body) s.tasks s.decisions s.questions)
            (reduced project2 s1.tasks s1.decisions s1.questions) from_restored tasks1 decisions1
            questions1)
          built,
      same_head,
      version,
    )
