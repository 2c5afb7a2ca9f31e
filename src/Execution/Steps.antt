-- ===== src/Execution/Steps.antt =====
-- What one execution adds to the progress of the loop (skill_platform/execution_state.py).
use rationale_vault.Prelude.{
  suc, String, str_eq, eq_iff, Bool, true, false, Bool-cases, List, [], ◌∷◌, ◌++◌, ok, raise,
  type_error, >>=-inv, ◌≡◌, refl, sym, inl, inr, if◌then◌else◌,
}
use mathlib.Core.Path.{subst}
use rationale_vault.Value.{Value, text, is_text, hashable}
use rationale_vault.Events.{EventRecord, for_each}
use rationale_vault.CognitiveHead.States.{store}
use rationale_vault.CognitiveHead.States.Updates.{write}
use rationale_vault.Execution.{
  ExecutionEntry, Progress, is_executed, entry_of, count, add, track, classify, add_execution,
  execution_round,
}

-- The execution recorded, its ids being hashable: first what does not depend on its state.
abbrev pub advancing : ExecutionEntry → Progress → Progress
advancing entry p = record p {
  executed_decision_ids = entry.decision_id ∷ p.executed_decision_ids;
  execution_counts =
      write entry.skill_id (suc (count entry.skill_id p.execution_counts)) p.execution_counts;
  durations = track entry p.durations;
}

abbrev pub advanced : ExecutionEntry → Progress → Progress
advanced entry p = classify entry (advancing entry p)

abbrev pub IsHashable : ExecutionEntry → Type 0
IsHashable entry = (hashable entry.decision_id ≡ true) × (hashable entry.skill_id ≡ true)

pub add_execution-advanced :
    (entry : ExecutionEntry) (p : Progress)
    → IsHashable entry
    → add_execution entry p ≡ ok (advanced entry p)
unfolding add_execution add store
add_execution-advanced entry p h = rw (h.0, h.1) refl

pub add_execution-inv :
    (entry : ExecutionEntry) (p p' : Progress)
    → add_execution entry p ≡ ok p'
    → IsHashable entry × (p' ≡ advanced entry p)
unfolding add_execution add store
add_execution-inv entry p p' h = elim (Bool-cases (hashable entry.decision_id)) [
  | inr b ↦ let h' : raise type_error ≡ ok p' = rw b at h in absurd (cc h')
  | inl b ↦ elim (Bool-cases (hashable entry.skill_id)) [
    | inr c ↦ let h' : raise type_error ≡ ok p' = rw (b, c) at h in absurd (cc h')
    | inl c ↦ let h' : ok (advanced entry p) ≡ ok p' = rw (b, c) at h in ((b, c), sym (cc h'))
  ]
]

-- The executions of the events, in order.
abbrev pub executions : List EventRecord → List ExecutionEntry
executions [] = []
executions (event ∷ events) =
    let rest = executions events in
    if is_executed event.event_type then entry_of event.payload ∷ rest else rest

-- What every execution does to the progress, the loop does for all of them.
pub loop-executions :
    (Q : List ExecutionEntry → Progress → Progress → Type 0)
    → ((p : Progress) → Q [] p p)
    → ((entry : ExecutionEntry) (entries : List ExecutionEntry) (p p' : Progress)
        → IsHashable entry
        → Q entries (advanced entry p) p'
        → Q (entry ∷ entries) p p')
    → (events : List EventRecord) (p p' : Progress) → for_each execution_round events p ≡ ok p'
    → Q (executions events) p p'
unfolding for_each execution_round
loop-executions Q start more [] p p' h = let e : p ≡ p' = cc h in subst (Q [] p) e (start p)
loop-executions Q start more (event ∷ events) p p' h =
    let (p1, h1, rest) = >>=-inv (execution_round p event) (for_each execution_round events) h in
    elim (Bool-cases (is_executed event.event_type)) [
      | inr b ↦
          let h1' : ok p ≡ ok p1 = rw b at h1 in
          let e : p1 ≡ p = sym (cc h1') in
          rw b (
            subst (λ x. Q (executions events) x p') e
              (loop-executions Q start more events p1 p' rest))
      | inl b ↦
          let h1' : add_execution (entry_of event.payload) p ≡ ok p1 = rw b at h1 in
          let (can, e) = add_execution-inv (entry_of event.payload) p p1 h1' in
          rw b (
            more (entry_of event.payload) (executions events) p p' can (
              subst (λ x. Q (executions events) x p') e
                (loop-executions Q start more events p1 p' rest)))
    ]

abbrev pub in_state : String → ExecutionEntry → Bool
in_state s entry = is_text s entry.state

-- In no state that the loop knows.
abbrev pub in_no_state : ExecutionEntry → Bool
in_no_state entry =
    if in_state "COMPLETED" entry
    then false
    else if in_state "TIMEOUT" entry
    then false
    else if in_state "DENIED" entry
    then false
    else true

pub is_text-apart :
    (s t : String) (v : Value) → str_eq s t ≡ false → is_text s v ≡ true → is_text t v ≡ false
unfolding is_text
is_text-apart s t (text u) apart h =
    let e : u ≡ s = (eq_iff u s).0 h in subst (λ w. str_eq w t ≡ false) (sym e) apart
is_text-apart s t v apart h = absurd (cc h)

-- The four branches of the classification, each with what the three tests give.
pub classify-cases :
    (P : Progress → Type 0) (entry : ExecutionEntry) (p : Progress)
    → (in_state "COMPLETED" entry ≡ true
        → in_state "TIMEOUT" entry ≡ false
        → in_state "DENIED" entry ≡ false
        → P (record p {
          completed = p.completed ++ entry ∷ [];
          success_counts =
              write entry.skill_id (suc (count entry.skill_id p.success_counts)) p.success_counts;
        }))
    → (in_state "COMPLETED" entry ≡ false
        → in_state "TIMEOUT" entry ≡ true
        → in_state "DENIED" entry ≡ false
        → P (record p { timeouts = p.timeouts ++ entry ∷ [] }))
    → (in_state "COMPLETED" entry ≡ false
        → in_state "TIMEOUT" entry ≡ false
        → in_state "DENIED" entry ≡ true
        → P (record p { denied = p.denied ++ entry ∷ [] }))
    → (in_state "COMPLETED" entry ≡ false
        → in_state "TIMEOUT" entry ≡ false
        → in_state "DENIED" entry ≡ false
        → P (record p { failed = p.failed ++ entry ∷ [] }))
    → P (classify entry p)
unfolding classify
classify-cases P entry p completed timeout denied failed =
    elim (Bool-cases (in_state "COMPLETED" entry)) [
      | inl a ↦ rw a (
          completed a (is_text-apart "COMPLETED" "TIMEOUT" entry.state refl a)
            (is_text-apart "COMPLETED" "DENIED" entry.state refl a))
      | inr a ↦ elim (Bool-cases (in_state "TIMEOUT" entry)) [
        | inl b ↦ rw (a, b) (timeout a b (is_text-apart "TIMEOUT" "DENIED" entry.state refl b))
        | inr b ↦ elim (Bool-cases (in_state "DENIED" entry)) [
          | inl c ↦ rw (a, b, c) (denied a b c)
          | inr c ↦ rw (a, b, c) (failed a b c)
        ]
      ]
    ]
