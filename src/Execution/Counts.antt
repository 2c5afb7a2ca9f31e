-- ===== src/Execution/Counts.antt =====
-- What the counts of executions are (skill_platform/execution_state.py).
use rationale_vault.Prelude.{
  ◌+◌, Bool, Bool-cases, Option, List, [], ◌∷◌, ok, >>=-inv, ◌≡◌, refl, sym, ap, ◌∙◌, inl, inr,
  keep, length, All, if◌then◌else◌, arith, String,
}
use mathlib.Core.Path.{subst}
use rationale_vault.Prelude.Dict
use rationale_vault.Prelude.Dict.{Dict}
use rationale_vault.Value.{Value}
use rationale_vault.Events.{EventRecord, for_each}
use rationale_vault.Execution.{
  ExecutionEntry, ExecutionState, Progress, no_progress, is_executed, entry_of, count,
  execution_round, state_of, reduce_executions,
}
use rationale_vault.Execution.Counted.{of_skill, total, Counted, Counted-nothing, Counted-then}
use rationale_vault.Execution.Lists.{reduce_executions-lists}
use rationale_vault.Execution.Steps.{
  advanced, IsHashable, add_execution-advanced, executions, in_state, in_no_state, is_text-apart,
  loop-executions,
}

length-keep :
    (test : ExecutionEntry → Bool) (entry : ExecutionEntry) (entries : List ExecutionEntry)
    → length (keep test (entry ∷ entries))
      ≡ (if test entry then 1 else 0) + length (keep test entries)
length-keep test entry entries = ground arith

-- Every execution is in one of the four lists.
one_list :
    (entry : ExecutionEntry)
    → (if in_state "COMPLETED" entry then 1 else 0)
        + (if in_no_state entry then 1 else 0)
        + (if in_state "TIMEOUT" entry then 1 else 0)
        + (if in_state "DENIED" entry then 1 else 0)
      ≡ 1
one_list entry = elim (Bool-cases (in_state "COMPLETED" entry)) [
  | inl a ↦
      rw
        (
          a,
          is_text-apart "COMPLETED" "TIMEOUT" entry.state refl a,
          is_text-apart "COMPLETED" "DENIED" entry.state refl a,
        )
        refl
  | inr a ↦ elim (Bool-cases (in_state "TIMEOUT" entry)) [
    | inl b ↦ rw (a, b, is_text-apart "TIMEOUT" "DENIED" entry.state refl b) refl
    | inr b ↦ elim (Bool-cases (in_state "DENIED" entry)) [
      | inl c ↦ rw (a, b, c) refl
      | inr c ↦ rw (a, b, c) refl
    ]
  ]
]

all_listed :
    (entries : List ExecutionEntry)
    → length (keep (in_state "COMPLETED") entries)
        + length (keep in_no_state entries)
        + length (keep (in_state "TIMEOUT") entries)
        + length (keep (in_state "DENIED") entries)
      ≡ length entries
all_listed [] = omega arith
all_listed (entry ∷ entries) = omega (
  arith,
  all_listed entries,
  one_list entry,
  length-keep (in_state "COMPLETED") entry entries,
  length-keep in_no_state entry entries,
  length-keep (in_state "TIMEOUT") entry entries,
  length-keep (in_state "DENIED") entry entries,
)

-- What the counts of a state of the events are.
abbrev pub IsCounted : List EventRecord → ExecutionState → Type 0
IsCounted events s =
    ((k : Value) → count k s.execution_counts ≡ length (keep (of_skill k) (executions events)))
    × ((k : Value)
        → count k s.success_counts
          ≡ length (keep (of_skill k) (keep (in_state "COMPLETED") (executions events))))
    × (total s.execution_counts ≡ s.total_executions)
    × (total s.success_counts ≡ s.total_completed)
    × (s.total_executions ≡ length (executions events))

-- Where the fold of events returns a state, the execution count of each skill is the number of its
-- executions and the success count that of its completed ones. The execution counts of all skills
-- add up to the total of executions, which is the number of the events of executions, and the
-- success counts to the total of completed ones.
pub reduce_executions-counts :
    (events : List EventRecord) (known_decision_ids : Option (List String)) (s : ExecutionState)
    → reduce_executions events known_decision_ids ≡ ok s
    → IsCounted events s
unfolding reduce_executions count Dict.get
reduce_executions-counts events known_decision_ids s h =
    let (p, loop, h') =
      >>=-inv (for_each execution_round events no_progress)
        (λ (p : Progress). ok (state_of known_decision_ids p)) h in
    let e : state_of known_decision_ids p ≡ s = cc h' in
    let counted = loop-executions Counted Counted-nothing Counted-then events no_progress p loop in
    let (completed, timeouts, denied, failed, _) =
      reduce_executions-lists events known_decision_ids (state_of known_decision_ids p)
        (h ∙ ap ok (sym e)) in
    let all : length p.completed + length p.failed + length p.timeouts + length p.denied
        ≡ length (executions events) =
      rw (completed, timeouts, denied, failed) (all_listed (executions events)) in
    let done : length p.completed ≡ length (keep (in_state "COMPLETED") (executions events)) =
      ap length completed in
    subst (IsCounted events) e (
      (λ k. omega (arith, counted.of_each k)),
      (λ k. omega (arith, counted.of_success k)),
      omega (arith, counted.in_total, all),
      omega (arith, counted.in_success, done),
      all,
    )

loop-returns :
    (events : List EventRecord) (p : Progress)
    → All IsHashable (executions events)
    → (p' : Progress) × (for_each execution_round events p ≡ ok p')
unfolding for_each execution_round
loop-returns [] p can = (p, refl)
loop-returns (event ∷ events) p can = elim (Bool-cases (is_executed event.event_type)) [
  | inr b ↦
      let can' : All IsHashable (executions events) = rw b at can in
      let (p', rest) = loop-returns events p can' in (p', rw b rest)
  | inl b ↦
      let can' : All IsHashable (entry_of event.payload ∷ executions events) = rw b at can in
      let (p', rest) = loop-returns events (advanced (entry_of event.payload) p) can'.1 in
      (p', rw (b, add_execution-advanced (entry_of event.payload) p can'.0) rest)
]

-- The fold of events returns a state where the decision id and the skill id of every execution can be
-- keys of a dict, whatever else the payloads hold or lack.
pub reduce_executions-returns :
    (events : List EventRecord) (known_decision_ids : Option (List String))
    → All IsHashable (executions events)
    → (s : ExecutionState) × (reduce_executions events known_decision_ids ≡ ok s)
unfolding reduce_executions
reduce_executions-returns events known_decision_ids can =
    let (p, loop) = loop-returns events no_progress can in
    (state_of known_decision_ids p, rw loop refl)
