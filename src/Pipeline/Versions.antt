-- ===== src/Pipeline/Versions.antt =====
-- The versions of a governance state, and those of the policy that the factory compiles of it
-- (schema/factory.py).
use rationale_vault.Prelude.{
  Bool, Result-cases, some_of, not, List, [], ◌∷◌, Result, ok, raise, unknown_schema, ◌≡◌, refl,
  ◌∙◌, ap, inl, inr, if◌then◌else◌,
}
use mathlib.Core.Logic.{ite}
use mathlib.Core.Path.{subst, fun_ext}
use rationale_vault.Prelude.Dict
use rationale_vault.Prelude.Dict.{Dict, get-put_self, get-put_ne}
use rationale_vault.Value.{Value, ℤ, pos, is_int}
use rationale_vault.Events.{EventRecord, EventType, EventType_discrete}
use rationale_vault.Schema.{EventSchema, SchemaPolicy, latest_version, is_current}
use rationale_vault.Governance.{GovernanceState}
use rationale_vault.Pipeline.{event_type_of, add_schema, add_schemas, compile}

-- The version in the last of the entries whose key names the type, or the one that is given.
abbrev pub recorded_version : EventType → Dict Value (ℤ × Value) → ℤ → ℤ
recorded_version t [] default = default
recorded_version t ((key, (version, effective)) ∷ versions) default =
    recorded_version t versions (elim (event_type_of key) [
      | raise e ↦ default
      | ok named ↦ ite (EventType_discrete named t) version default
    ])

-- The version of a type in a governance state: 1 where no entry names the type.
abbrev pub version_in : GovernanceState → EventType → ℤ
version_in g t = recorded_version t g.schema_versions (pos 1)

latest_version-put :
    (named t : EventType) (s : EventSchema) (policy : SchemaPolicy)
    → latest_version (Dict.put EventType_discrete named s policy) t
      ≡ ite (EventType_discrete named t) s.latest_version (latest_version policy t)
unfolding latest_version
latest_version-put named t s policy =
    elim (EventType_discrete named t)
      as (λ d.
        latest_version (Dict.put EventType_discrete named s policy) t
        ≡ ite d s.latest_version (latest_version policy t)) [
          | yes e ↦
              subst
                (λ k.
                  latest_version (Dict.put EventType_discrete named s policy) k ≡ s.latest_version)
                e (rw (get-put_self EventType_discrete named s policy, latest_version) refl)
          | no n ↦ rw (get-put_ne EventType_discrete named t s policy n, latest_version) refl
        ]

latest_version-add_schema :
    (key : Value) (version : ℤ) (policy : SchemaPolicy) (t : EventType)
    → latest_version (add_schema key version policy) t ≡ elim (event_type_of key) [
      | raise e ↦ latest_version policy t
      | ok named ↦ ite (EventType_discrete named t) version (latest_version policy t)
    ]
unfolding add_schema
latest_version-add_schema key version policy t = elim (Result-cases (event_type_of key)) [
  | inl (named, e) ↦ rw (e, add_schema) (latest_version-put named t _ policy)
  | inr (x, e) ↦ rw (e, add_schema) refl
]

latest_version-add_schemas :
    (versions : Dict Value (ℤ × Value)) (policy : SchemaPolicy) (t : EventType)
    → latest_version (add_schemas versions policy) t
      ≡ recorded_version t versions (latest_version policy t)
unfolding add_schemas
latest_version-add_schemas [] policy t = refl
latest_version-add_schemas ((key, (version, effective)) ∷ versions) policy t =
    latest_version-add_schemas versions (add_schema key version policy) t
    ∙ ap (recorded_version t versions) (latest_version-add_schema key version policy t)

pub latest_version-compile :
    (g : GovernanceState) (t : EventType) → latest_version (compile g) t ≡ version_in g t
unfolding compile latest_version Dict.get
latest_version-compile g t = latest_version-add_schemas g.schema_versions [] t

-- Events of the versions that a governance state has for their types.
abbrev pub if_recorded : GovernanceState → List EventRecord → Result (List EventRecord)
if_recorded g events =
    if some_of (λ e. not (is_int (version_in g e.event_type) e.schema_version)) events
    then raise unknown_schema
    else ok events

pub compiled-if_recorded :
    (g : GovernanceState) (events : List EventRecord)
    → (if some_of (λ e. not (is_current (compile g) e)) events
        then raise unknown_schema
        else ok events)
      ≡ if_recorded g events
unfolding is_current
compiled-if_recorded g events =
    ap
      (λ (test : EventRecord → Bool).
        if some_of test events then raise unknown_schema else ok events)
      (fun_ext
        λ e. ap (λ v. not (is_int v e.schema_version)) (latest_version-compile g e.event_type))
