-- ===== src/Governance/Verdict.antt =====
-- What the governance events say of a target, one by one and taken together
-- (projections/governance.py).
use rationale_vault.Prelude.{
  true, Bool-cases, Option, none, some, Option-cases, List, [], ◌∷◌, ok, raise, type_error, ◌≡◌,
  refl, sym, inl, inr, if◌then◌else◌,
}
use mathlib.Core.Logic.{ite}
use mathlib.Core.Path.{subst}
use rationale_vault.Prelude.Dict
use rationale_vault.Prelude.Dict.{Dict, get-put_self, get-put_ne, get-without_self, get-without_ne}
use rationale_vault.Value.{Value, Value_discrete, hashable}
use rationale_vault.Events.{EventRecord}
use rationale_vault.CognitiveHead.States.Updates.{find, write}
use rationale_vault.Governance.{
  GovernanceDomain, GovernanceAction, GovernanceRecord, policy, projection, adjusted, disabled,
  record_from_dict, PolicyValue, remove, is_governance, effective_of,
}

-- Nothing is said, or there is an entry from now on, or there is none.
abbrev pub Verdict : Type 0 → Type 0
Verdict A = Option (Option A)

abbrev pub settled : {A : Type 0} → Option A → Verdict A → Option A
settled before none = before
settled before (some now) = now

-- What the last event that says something says.
abbrev pub latest : {A : Type 0} → (EventRecord → Verdict A) → List EventRecord → Verdict A
latest says [] = none
latest says (e ∷ es) = elim (latest says es) [ none ↦ says e | some now ↦ some now ]

abbrev pub Rule : Type 0 → Type 0
Rule A = GovernanceDomain → GovernanceAction → GovernanceRecord → Value → Verdict A

abbrev pub on_target : {A : Type 0} → Value → GovernanceRecord → Verdict A → Verdict A
on_target t r verdict = ite (Value_discrete r.target t) verdict none

-- What an event says of a target under a rule.
abbrev pub said : {A : Type 0} → Rule A → Value → EventRecord → Verdict A
said rule t event =
    if is_governance event.event_type
    then elim (record_from_dict event.payload) [
      | raise e ↦ none
      | ok r ↦ on_target t r (rule r.domain r.action r (effective_of r event))
    ]
    else none

abbrev pub policy_rule : Rule PolicyValue
policy_rule policy adjusted r effective =
    some (some (record { value = r.new_version; effective_sequence = effective }))
policy_rule policy disabled r effective = some none
policy_rule _ _ r effective = none

abbrev pub disabled_rule : Rule Value
disabled_rule projection disabled r effective = some (some effective)
disabled_rule projection adjusted r effective = some none
disabled_rule _ _ r effective = none

pub settled-latest :
    {A : Type 0} (before : Option A) (says : EventRecord → Verdict A) (e : EventRecord)
    (es : List EventRecord)
    → settled (settled before (says e)) (latest says es) ≡ settled before (latest says (e ∷ es))
settled-latest before says e es = elim (Option-cases (latest says es)) [
  | inl h ↦ rw h
  | inr (now, h) ↦ rw h
]

pub on_target-silent :
    {A : Type 0} (before : Option A) (t : Value) (r : GovernanceRecord)
    → settled before (on_target t r none) ≡ before
on_target-silent before t r =
    elim (Value_discrete r.target t) as (λ d. settled before (ite d none none) ≡ before) [
      | yes e ↦ refl
      | no n ↦ refl
    ]

pub find-write :
    {A : Type 0} (t : Value) (r : GovernanceRecord) (v : A) (d : Dict Value A)
    → find t (write r.target v d) ≡ settled (find t d) (on_target t r (some (some v)))
find-write t r v d =
    elim (Value_discrete r.target t)
      as (λ b. find t (write r.target v d) ≡ settled (find t d) (ite b (some (some v)) none)) [
        | yes e ↦ subst (λ k. find k (write r.target v d) ≡ some v) e (get-put_self _ _ v d)
        | no n ↦ get-put_ne _ _ t v d n
      ]

pub find-without :
    {A : Type 0} (t : Value) (r : GovernanceRecord) (d : Dict Value A)
    → find t (Dict.without Value_discrete r.target d)
      ≡ settled (find t d) (on_target t r (some none))
find-without t r d =
    elim (Value_discrete r.target t)
      as (λ b.
        find t (Dict.without Value_discrete r.target d)
        ≡ settled (find t d) (ite b (some none) none)) [
          | yes e ↦
              subst (λ k. find k (Dict.without Value_discrete r.target d) ≡ none) e
                (get-without_self _ _ d)
          | no n ↦ get-without_ne _ _ t d n
        ]

pub remove-inv :
    {A : Type 0} (k : Value) (d d' : Dict Value A)
    → remove k d ≡ ok d'
    → d' ≡ Dict.without Value_discrete k d
unfolding remove Dict.without
remove-inv k [] d' h = sym (cc h)
remove-inv k (x ∷ d) d' h = elim (Bool-cases (hashable k)) [
  | inl b ↦ let h' : ok (Dict.without Value_discrete k (x ∷ d)) ≡ ok d' = rw b at h in sym (cc h')
  | inr b ↦ let h' : raise type_error ≡ ok d' = rw b at h in absurd (cc h')
]

pub remove-returns :
    {A : Type 0} (k : Value) (d : Dict Value A)
    → hashable k ≡ true
    → remove k d ≡ ok (Dict.without Value_discrete k d)
unfolding remove Dict.without
remove-returns k [] h = refl
remove-returns k (x ∷ d) h = rw h refl
