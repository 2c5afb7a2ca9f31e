-- ===== src/CognitiveHead/Reducers/Mutation.antt =====
-- What TASK_MUTATED leaves of a task (cognitive_head/reducers.py).
use rationale_vault.Prelude.{
  String, false, Bool-cases, [], ◌∷◌, ok, raise, type_error, attribute_error, >>=-inv, ◌≡◌, refl,
  sym, ◌∙◌, ap, inl, inr, All, str_eq,
}
use mathlib.Core.Path.{subst}
use rationale_vault.Value.{Value, Payload}
use rationale_vault.Events.{EventRecord, recorded}
use rationale_vault.CognitiveHead.States.{TaskState}
use rationale_vault.CognitiveHead.Tasks.{write_field, set_field, set_fields, mutate_task}

-- A write of a declared field leaves the id.
write_field-task_id :
    (k : String) (v : Value) (t : TaskState) → (write_field k v t).task_id ≡ t.task_id
unfolding write_field
write_field-task_id k v t = elim (Bool-cases (str_eq k "title")) [
  | inl h ↦ rw h refl
  | inr h ↦ rw h (elim (Bool-cases (str_eq k "description")) [
    | inl h ↦ rw h refl
    | inr h ↦ rw h (elim (Bool-cases (str_eq k "status")) [
      | inl h ↦ rw h refl
      | inr h ↦ rw h (elim (Bool-cases (str_eq k "assignee")) [
        | inl h ↦ rw h refl
        | inr h ↦ rw h (elim (Bool-cases (str_eq k "priority")) [
          | inl h ↦ rw h refl
          | inr h ↦ rw h (elim (Bool-cases (str_eq k "tags")) [
            | inl h ↦ rw h refl
            | inr h ↦ rw h (elim (Bool-cases (str_eq k "blocked_by")) [
              | inl h ↦ rw h refl
              | inr h ↦ rw h (elim (Bool-cases (str_eq k "created_at")) [
                | inl h ↦ rw h refl
                | inr h ↦ rw h (elim (Bool-cases (str_eq k "updated_at")) [
                  | inl h ↦ rw h refl
                  | inr h ↦ rw h (elim (Bool-cases (str_eq k "completed_at")) [
                    | inl h ↦ rw h refl
                    | inr h ↦ rw h (elim (Bool-cases (str_eq k "created_by")) [
                      | inl h ↦ rw h refl
                      | inr h ↦ rw h (elim (Bool-cases (str_eq k "progress_notes")) [
                        | inl h ↦ rw h refl
                        | inr h ↦ rw h (elim (Bool-cases (str_eq k "related_knowledge_ids")) [
                          | inl h ↦ rw h refl
                          | inr h ↦ rw h (refl)
                        ])
                      ])
                    ])
                  ])
                ])
              ])
            ])
          ])
        ])
      ])
    ])
  ])
]

set_field-task_id :
    (k : String) (v : Value) (t t' : TaskState)
    → str_eq k "__dict__" ≡ false
    → set_field k v t ≡ ok t'
    → t'.task_id ≡ t.task_id
unfolding set_field
set_field-task_id k v t t' own h = elim (Bool-cases (str_eq k "__class__")) [
  | inl a ↦ let h' : raise type_error ≡ ok t' = rw (own, a) at h in absurd (cc h')
  | inr a ↦ elim (Bool-cases (str_eq k "__weakref__")) [
    | inl b ↦ let h' : raise attribute_error ≡ ok t' = rw (own, a, b) at h in absurd (cc h')
    | inr b ↦
        let h' : ok (write_field k v t) ≡ ok t' = rw (own, a, b) at h in
        let c : write_field k v t ≡ t' = cc h' in
        subst (λ s. s.task_id ≡ t.task_id) c (write_field-task_id k v t)
  ]
]

-- No key of the payload is `__dict__`.
abbrev pub IsPlain : Payload → Type 0
IsPlain = All (λ (entry : String × Value). str_eq entry.0 "__dict__" ≡ false)

set_fields-task_id :
    (p : Payload) (t t' : TaskState) → IsPlain p → set_fields p t ≡ ok t' → t'.task_id ≡ t.task_id
unfolding set_fields
set_fields-task_id [] t t' plain h = let c : t ≡ t' = cc h in ap (λ s. s.task_id) (sym c)
set_fields-task_id ((k, v) ∷ p) t t' plain h =
    let (t1, h1, rest) = >>=-inv (set_field k v t) (set_fields p) h in
    set_fields-task_id p t1 t' plain.1 rest ∙ set_field-task_id k v t t1 plain.0 h1

pub mutate_task-task_id :
    (e : EventRecord) (t t' : TaskState)
    → IsPlain e.payload
    → mutate_task e t ≡ ok t'
    → t'.task_id ≡ t.task_id
unfolding mutate_task
mutate_task-task_id e t t' plain h =
    let (t1, h1, rest) =
      >>=-inv (set_fields e.payload t)
        (λ (s : TaskState). ok (record s { updated_at = recorded e })) h in
    let f = set_fields-task_id e.payload t t1 plain h1 in cc (rest, f)
