-- ===== src/Execution/Lists.antt =====
-- Which executions stand in which list (skill_platform/execution_state.py).
use rationale_vault.Prelude.{
  String, Bool, true, false, not, Option, none, some, List, [], ◌∷◌, ◌++◌, ok, >>=-inv, ◌≡◌, refl,
  sym, ap, ◌∙◌, keep, keep-ext, keep-append, some_of, if◌then◌else◌, arith,
}
use mathlib.Core.List.{append_assoc, append-nil}
use mathlib.Core.Logic.{ite}
use mathlib.Core.Path.{subst}
use rationale_vault.Value.{Value, text, Value_discrete}
use rationale_vault.Events.{EventRecord, for_each}
use rationale_vault.Execution.{
  ExecutionEntry, ExecutionState, Progress, no_progress, is_in, classify, execution_round, pending,
  state_of, reduce_executions,
}
use rationale_vault.Execution.Steps.{
  advancing, advanced, IsHashable, executions, in_state, in_no_state, classify-cases,
  loop-executions,
}

abbrev pub is_decided : Value → List ExecutionEntry → Bool
is_decided id entries =
    some_of (λ entry. ite (Value_discrete entry.decision_id id) true false) entries

-- The lists of the later progress are those of the earlier one and what the executions add.
record Added (entries : List ExecutionEntry) (p p' : Progress) : Type 0 where
  to_completed : p'.completed ≡ p.completed ++ keep (in_state "COMPLETED") entries
  to_timeouts : p'.timeouts ≡ p.timeouts ++ keep (in_state "TIMEOUT") entries
  to_denied : p'.denied ≡ p.denied ++ keep (in_state "DENIED") entries
  to_failed : p'.failed ≡ p.failed ++ keep in_no_state entries

same : (xs : List ExecutionEntry) → xs ≡ xs ++ []
same xs = sym (append-nil xs)

Added-nothing : (p : Progress) → Added [] p p
Added-nothing p = record {
  to_completed = same p.completed;
  to_timeouts = same p.timeouts;
  to_denied = same p.denied;
  to_failed = same p.failed;
}

Added-classify : (entry : ExecutionEntry) (p : Progress) → Added (entry ∷ []) p (classify entry p)
Added-classify entry p =
    classify-cases (Added (entry ∷ []) p) entry p
      (λ a b c. record {
        to_completed = rw a refl;
        to_timeouts = rw b (same p.timeouts);
        to_denied = rw c (same p.denied);
        to_failed = rw a (same p.failed);
      })
      (λ a b c. record {
        to_completed = rw a (same p.completed);
        to_timeouts = rw b refl;
        to_denied = rw c (same p.denied);
        to_failed = rw (a, b) (same p.failed);
      })
      (λ a b c. record {
        to_completed = rw a (same p.completed);
        to_timeouts = rw b (same p.timeouts);
        to_denied = rw c refl;
        to_failed = rw (a, b, c) (same p.failed);
      })
      (λ a b c. record {
        to_completed = rw a (same p.completed);
        to_timeouts = rw b (same p.timeouts);
        to_denied = rw c (same p.denied);
        to_failed = rw (a, b, c) refl;
      })

keep-then :
    (test : ExecutionEntry → Bool) (entry : ExecutionEntry)
    (entries before between after : List ExecutionEntry)
    → between ≡ before ++ keep test (entry ∷ [])
    → after ≡ between ++ keep test entries
    → after ≡ before ++ keep test (entry ∷ entries)
keep-then test entry entries before between after h h' =
    h'
    ∙ ap (λ xs. xs ++ keep test entries) h
    ∙ append_assoc before (keep test (entry ∷ [])) (keep test entries)
    ∙ ap (λ xs. before ++ xs) (sym (keep-append test (entry ∷ []) entries))

Added-then :
    (entry : ExecutionEntry) (entries : List ExecutionEntry) (p p' : Progress)
    → IsHashable entry
    → Added entries (advanced entry p) p'
    → Added (entry ∷ entries) p p'
Added-then entry entries p p' can rest =
    let one : Added (entry ∷ []) (advancing entry p) (advanced entry p) =
      Added-classify entry (advancing entry p) in
    record {
      to_completed = keep-then _ entry entries p.completed _ _ one.to_completed rest.to_completed;
      to_timeouts = keep-then _ entry entries p.timeouts _ _ one.to_timeouts rest.to_timeouts;
      to_denied = keep-then _ entry entries p.denied _ _ one.to_denied rest.to_denied;
      to_failed = keep-then _ entry entries p.failed _ _ one.to_failed rest.to_failed;
    }

-- A decision is in the set afterwards that an execution is of, or that was there.
abbrev AreIn : List ExecutionEntry → Progress → Progress → Type 0
AreIn entries p p' =
    (v : Value)
    → is_in v p'.executed_decision_ids
      ≡ (if is_decided v entries then true else is_in v p.executed_decision_ids)

either_order :
    (a b c : Bool)
    → (if b then true else if a then true else c) ≡ (if if a then true else b then true else c)
either_order a b c = ground arith

or_false : (b : Bool) → (if b then true else false) ≡ b
or_false b = ground arith

AreIn-then :
    (entry : ExecutionEntry) (entries : List ExecutionEntry) (p p' : Progress)
    → IsHashable entry
    → AreIn entries (advanced entry p) p'
    → AreIn (entry ∷ entries) p p'
unfolding is_in
AreIn-then entry entries p p' can rest v =
    let ids : (advanced entry p).executed_decision_ids
        ≡ entry.decision_id ∷ p.executed_decision_ids =
      classify-cases (λ x. x.executed_decision_ids ≡ entry.decision_id ∷ p.executed_decision_ids)
        entry (advancing entry p) (λ a b c. refl) (λ a b c. refl) (λ a b c. refl) (λ a b c. refl) in
    rest v
    ∙ ap (λ xs. if is_decided v entries then true else is_in v xs) ids
    ∙ either_order (ite (Value_discrete entry.decision_id v) true false) (is_decided v entries)
        (is_in v p.executed_decision_ids)

-- What the lists of a state of the events are.
abbrev pub IsListed : List EventRecord → Option (List String) → ExecutionState → Type 0
IsListed events known_decision_ids s =
    (s.completed_executions ≡ keep (in_state "COMPLETED") (executions events))
    × (s.timeout_executions ≡ keep (in_state "TIMEOUT") (executions events))
    × (s.denied_executions ≡ keep (in_state "DENIED") (executions events))
    × (s.failed_executions ≡ keep in_no_state (executions events))
    × (s.pending_decisions ≡ elim known_decision_ids [
      | none ↦ []
      | some ids ↦ keep (λ id. not (is_decided (text id) (executions events))) ids
    ])

pending-lem :
    (known_decision_ids : Option (List String)) (events : List EventRecord) (p : Progress)
    → AreIn (executions events) no_progress p
    → pending known_decision_ids p.executed_decision_ids ≡ elim known_decision_ids [
      | none ↦ []
      | some ids ↦ keep (λ id. not (is_decided (text id) (executions events))) ids
    ]
unfolding pending is_in
pending-lem none events p ids = refl
pending-lem (some known_decision_ids) events p ids =
    keep-ext _ _
      (λ id. ap not (ids (text id) ∙ or_false (is_decided (text id) (executions events))))
      known_decision_ids

-- Where the fold of events returns a state, each list of it holds the executions of the events that
-- are in the list's state, in the order of the events and each once: the completed, the timed out
-- and the denied ones, and as failed those in any other state. A known decision is pending where no
-- execution is of it, and without known decisions nothing is pending.
pub reduce_executions-lists :
    (events : List EventRecord) (known_decision_ids : Option (List String)) (s : ExecutionState)
    → reduce_executions events known_decision_ids ≡ ok s
    → IsListed events known_decision_ids s
unfolding reduce_executions
reduce_executions-lists events known_decision_ids s h =
    let (p, loop, h') =
      >>=-inv (for_each execution_round events no_progress)
        (λ (p : Progress). ok (state_of known_decision_ids p)) h in
    let e : state_of known_decision_ids p ≡ s = cc h' in
    let added = loop-executions Added Added-nothing Added-then events no_progress p loop in
    let ids = loop-executions AreIn (λ p v. refl) AreIn-then events no_progress p loop in
    subst (IsListed events known_decision_ids) e (
      added.to_completed,
      added.to_timeouts,
      added.to_denied,
      added.to_failed,
      pending-lem known_decision_ids events p ids,
    )
