-- ===== src/Governance/Returns.antt =====
-- When the governance projection returns a state (projections/governance.py).
use rationale_vault.Prelude.{
  String, true, Bool-cases, List, [], ◌∷◌, Result, Result-cases, ok, ◌≡◌, refl, inl, inr, All,
  order_by, order_by-All,
}
use rationale_vault.Prelude.Dict
use rationale_vault.Value.{ℤ, Value, Value_discrete, truthy, hashable}
use rationale_vault.Events.{EventRecord, for_each}
use rationale_vault.CognitiveHead.States.{store}
use rationale_vault.CognitiveHead.States.Updates.{write}
use rationale_vault.Governance.Verdict.{remove-returns}
use rationale_vault.Governance.{
  GovernanceDomain, GovernanceAction, GovernanceRecord, policy, projection, schema, adjusted,
  topology_changed, migration_applied, disabled, record_from_dict, GovernanceState, PolicyValue,
  default_governance, is_governance, effective_of, int_of, apply_record, governance_round, project,
}

module _ (parse_int : String → Result ℤ) where
  -- The target can be a key, and the new version of a schema is a number where it is given.
  abbrev pub IsApplicable : GovernanceRecord → Type 0
  IsApplicable r =
      (hashable r.target ≡ true)
      × (r.domain ≡ schema
          → truthy r.new_version ≡ true
          → (n : ℤ) × (int_of parse_int r.new_version ≡ ok n))

  abbrev pub IsReadable : EventRecord → Type 0
  IsReadable event =
      is_governance event.event_type ≡ true
      → (r : GovernanceRecord) → record_from_dict event.payload ≡ ok r
      → IsApplicable r

  apply_record-returns :
      (d : GovernanceDomain) (a : GovernanceAction) (r : GovernanceRecord) (v : Value)
      (s : GovernanceState)
      → r.domain ≡ d
      → IsApplicable r
      → (s' : GovernanceState) × (apply_record parse_int d a r v s ≡ ok s')
  unfolding apply_record store
  apply_record-returns policy adjusted r v s same can =
      let made : PolicyValue = record { value = r.new_version; effective_sequence = v } in
      (record s { policies = write r.target made s.policies }, rw can.0 refl)
  apply_record-returns policy disabled r v s same can = (
    record s { policies = Dict.without Value_discrete r.target s.policies },
    rw (remove-returns r.target s.policies can.0) refl,
  )
  apply_record-returns projection topology_changed r v s same can =
      (record s { projection_topology = r.target; topology_effective_sequence = v }, refl)
  apply_record-returns projection disabled r v s same can =
      (record s { disabled_components = write r.target v s.disabled_components }, rw can.0 refl)
  apply_record-returns projection adjusted r v s same can = (
    record s { disabled_components = Dict.without Value_discrete r.target s.disabled_components },
    rw (remove-returns r.target s.disabled_components can.0) refl,
  )
  apply_record-returns schema migration_applied r v s same can =
      elim (Bool-cases (truthy r.new_version)) [
        | inr absent ↦ (s, rw absent refl)
        | inl given ↦
            let (n, e) = can.1 same given in
            (
              record s { schema_versions = write r.target (n, v) s.schema_versions },
              rw (given, e, can.0) refl,
            )
      ]
  apply_record-returns _ _ r v s same can = (s, refl)

  round-returns :
      (event : EventRecord) (s : GovernanceState)
      → IsReadable event
      → (s' : GovernanceState) × (governance_round parse_int event s ≡ ok s')
  unfolding governance_round
  round-returns event s readable = elim (Bool-cases (is_governance event.event_type)) [
    | inr b ↦ (s, rw b refl)
    | inl b ↦ elim (Result-cases (record_from_dict event.payload)) [
      | inr (x, c) ↦ (s, rw (b, c) refl)
      | inl (r, c) ↦
          let (s', e) =
            apply_record-returns r.domain r.action r (effective_of r event) s refl
              (readable b r c) in
          (s', rw (b, c) e)
    ]
  ]

  loop-returns :
      (events : List EventRecord) (s : GovernanceState)
      → All IsReadable events
      → (s' : GovernanceState) × (for_each (λ s event. governance_round parse_int event s) events s
          ≡ ok s')
  unfolding for_each
  loop-returns [] s readable = (s, refl)
  loop-returns (event ∷ events) s readable =
      let (s1, e) = round-returns event s readable.0 in
      let (s', rest) = loop-returns events s1 readable.1 in (s', rw e rest)

-- The projection returns a state where every governance event whose payload reads as a record has a target
-- that can be a key and, in the schema domain, a new version that is absent or read as a number. No
-- other event, and no payload that does not read as a record, stops it.
pub project-returns :
    (parse_int : String → Result ℤ) (events : List EventRecord)
    → All (IsReadable parse_int) events
    → (s : GovernanceState) × (project parse_int events ≡ ok s)
unfolding project
project-returns parse_int events readable =
    loop-returns parse_int (order_by (λ e. e.event_sequence) events) default_governance
      (order_by-All (λ e. e.event_sequence) (IsReadable parse_int) events readable)
