-- ===== src/Execution/Counted.antt =====
-- What one execution adds to the counts (skill_platform/execution_state.py).
use rationale_vault.Prelude.{
  ℕ, suc, ◌+◌, Bool, true, false, Bool-cases, List, [], ◌∷◌, ◌≡◌, refl, ap, ◌∙◌, inl, inr, keep,
  length, if◌then◌else◌, arith,
}
use mathlib.Core.Logic.{ite}
use mathlib.Core.Path.{subst}
use rationale_vault.Prelude.Dict
use rationale_vault.Prelude.Dict.{Dict}
use rationale_vault.CognitiveHead.States.Updates.{write}
use rationale_vault.Value.{Value, Value_discrete}
use rationale_vault.Execution.{ExecutionEntry, Progress, count, track}
use rationale_vault.Execution.Steps.{advancing, advanced, IsHashable, in_state, classify-cases}

abbrev pub of_skill : Value → ExecutionEntry → Bool
of_skill skill_id entry = ite (Value_discrete entry.skill_id skill_id) true false

-- The sum of the counts.
abbrev pub total : Dict Value ℕ → ℕ
total [] = 0
total ((k, n) ∷ counts) = n + total counts

pub count-write :
    (j k : Value) (counts : Dict Value ℕ)
    → count k (write j (suc (count j counts)) counts)
      ≡ (if ite (Value_discrete j k) true false then 1 else 0) + count k counts
unfolding count
count-write j k counts =
    elim (Value_discrete j k)
      as (λ d.
        count k (write j (suc (count j counts)) counts)
        ≡ (if ite d true false then 1 else 0) + count k counts) [
          | yes e ↦
              subst (λ i. count i (write j (suc (count j counts)) counts) ≡ 1 + count i counts) e
                (rw (Dict.get-put_self Value_discrete j (suc (count j counts)) counts, count)
                  (omega arith))
          | no n ↦
              rw (Dict.get-put_ne Value_discrete j k (suc (count j counts)) counts n) (omega arith)
        ]

total-write :
    (j : Value) (counts : Dict Value ℕ)
    → total (write j (suc (count j counts)) counts) ≡ suc (total counts)
unfolding count Dict.get Dict.put
total-write j [] = omega arith
total-write j ((k, n) ∷ counts) = ground (arith, total-write j counts)

advanced-counts :
    (entry : ExecutionEntry) (p : Progress)
    → (advanced entry p).execution_counts
      ≡ write entry.skill_id (suc (count entry.skill_id p.execution_counts)) p.execution_counts
advanced-counts entry p =
    classify-cases
      (λ x.
        x.execution_counts
        ≡ write entry.skill_id (suc (count entry.skill_id p.execution_counts)) p.execution_counts)
      entry (advancing entry p) (λ a b c. refl) (λ a b c. refl) (λ a b c. refl) (λ a b c. refl)

advanced-success :
    (entry : ExecutionEntry) (p : Progress)
    → (advanced entry p).success_counts ≡ (
        if in_state "COMPLETED" entry
        then write entry.skill_id (suc (count entry.skill_id p.success_counts)) p.success_counts
        else p.success_counts)
advanced-success entry p =
    classify-cases
      (λ x. x.success_counts ≡ (
        if in_state "COMPLETED" entry
        then write entry.skill_id (suc (count entry.skill_id p.success_counts)) p.success_counts
        else p.success_counts))
      entry (advancing entry p) (λ a b c. rw a refl) (λ a b c. rw a refl) (λ a b c. rw a refl)
      (λ a b c. rw a refl)

advanced-durations :
    (entry : ExecutionEntry) (p : Progress) → (advanced entry p).durations ≡ track entry p.durations
advanced-durations entry p =
    classify-cases (λ x. x.durations ≡ track entry p.durations) entry (advancing entry p)
      (λ a b c. refl) (λ a b c. refl) (λ a b c. refl) (λ a b c. refl)

-- The later counts are the earlier ones and the number of the executions.
pub record Counted (entries : List ExecutionEntry) (p p' : Progress) : Type 0 where
  pub of_each :
      (k : Value)
      → count k p'.execution_counts
        ≡ length (keep (of_skill k) entries) + count k p.execution_counts
  pub of_success :
      (k : Value)
      → count k p'.success_counts
        ≡ length (keep (of_skill k) (keep (in_state "COMPLETED") entries))
          + count k p.success_counts
  pub in_total : total p'.execution_counts ≡ length entries + total p.execution_counts
  pub in_success :
      total p'.success_counts
      ≡ length (keep (in_state "COMPLETED") entries) + total p.success_counts

pub Counted-nothing : (p : Progress) → Counted [] p p
Counted-nothing p = record {
  of_each = λ k. omega arith;
  of_success = λ k. omega arith;
  in_total = omega arith;
  in_success = omega arith;
}

success-then :
    (entry : ExecutionEntry) (entries : List ExecutionEntry) (p p' : Progress)
    → Counted entries (advanced entry p) p'
    → (k : Value)
    → count k p'.success_counts
      ≡ length (keep (of_skill k) (keep (in_state "COMPLETED") (entry ∷ entries)))
        + count k p.success_counts
success-then entry entries p p' rest k = elim (Bool-cases (in_state "COMPLETED" entry)) [
  | inr b ↦
      let same : (advanced entry p).success_counts ≡ p.success_counts =
        advanced-success entry p ∙ rw b refl in
      rw b (rest.of_success k ∙ rw same refl)
  | inl b ↦
      let one : count k (advanced entry p).success_counts
          ≡ (if of_skill k entry then 1 else 0) + count k p.success_counts =
        ap (count k) (advanced-success entry p ∙ rw b refl)
        ∙ count-write entry.skill_id k p.success_counts in
      rw b (ground (arith, rest.of_success k, one))
]

total-then :
    (entry : ExecutionEntry) (entries : List ExecutionEntry) (p p' : Progress)
    → Counted entries (advanced entry p) p'
    → total p'.success_counts
      ≡ length (keep (in_state "COMPLETED") (entry ∷ entries)) + total p.success_counts
total-then entry entries p p' rest = elim (Bool-cases (in_state "COMPLETED" entry)) [
  | inr b ↦
      let same : (advanced entry p).success_counts ≡ p.success_counts =
        advanced-success entry p ∙ rw b refl in
      rw b (rest.in_success ∙ rw same refl)
  | inl b ↦
      let one : total (advanced entry p).success_counts ≡ suc (total p.success_counts) =
        ap total (advanced-success entry p ∙ rw b refl)
        ∙ total-write entry.skill_id p.success_counts in
      rw b (omega (arith, rest.in_success, one))
]

pub Counted-then :
    (entry : ExecutionEntry) (entries : List ExecutionEntry) (p p' : Progress)
    → IsHashable entry
    → Counted entries (advanced entry p) p'
    → Counted (entry ∷ entries) p p'
Counted-then entry entries p p' can rest = record {
  of_each = λ k.
      let one : count k (advanced entry p).execution_counts
          ≡ (if of_skill k entry then 1 else 0) + count k p.execution_counts =
        ap (count k) (advanced-counts entry p) ∙ count-write entry.skill_id k p.execution_counts in
      ground (arith, rest.of_each k, one);
  of_success = success-then entry entries p p' rest;
  in_total = omega (
    arith,
    rest.in_total,
    ap total (advanced-counts entry p),
    total-write entry.skill_id p.execution_counts,
  );
  in_success = total-then entry entries p p' rest;
}
