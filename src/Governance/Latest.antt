-- ===== src/Governance/Latest.antt =====
-- What the projected state says of a target is what the last record about it said
-- (projections/governance.py).
use rationale_vault.Prelude.{
  String, Bool-cases, none, List, [], ◌∷◌, Result, Result-cases, >>=-inv, ◌>>=◌, ok, ◌≡◌, sym, ap,
  ◌∙◌, inl, inr, order_by,
}
use rationale_vault.Prelude.Dict
use rationale_vault.Prelude.Dict.{Dict}
use rationale_vault.Value.{ℤ, Value, truthy}
use rationale_vault.Events.{EventRecord, for_each}
use rationale_vault.CognitiveHead.States.{store}
use rationale_vault.CognitiveHead.States.Updates.{find, store-inv}
use rationale_vault.Governance.{
  GovernanceDomain, GovernanceAction, GovernanceRecord, policy, projection, schema, adjusted,
  topology_changed, migration_applied, disabled, record_from_dict, PolicyValue, GovernanceState,
  remove, is_governance, effective_of, int_of, apply_record, governance_round, project,
}
use rationale_vault.Governance.Verdict.{
  settled, latest, Rule, on_target, said, policy_rule, disabled_rule, settled-latest,
  on_target-silent, find-write, find-without, remove-inv,
}

module _ (parse_int : String → Result ℤ) where
  -- The state's entries of a target follow a rule.
  abbrev IsFollowed : {A : Type 0} → (GovernanceState → Dict Value A) → Rule A → Type 0
  IsFollowed entries rule =
      (t : Value) (d : GovernanceDomain) (a : GovernanceAction) (r : GovernanceRecord) (v : Value)
      (s s' : GovernanceState)
      → apply_record parse_int d a r v s ≡ ok s'
      → find t (entries s') ≡ settled (find t (entries s)) (on_target t r (rule d a r v))

  silent :
      {A : Type 0} (entries : GovernanceState → Dict Value A) (t : Value) (r : GovernanceRecord)
      (s s' : GovernanceState)
      → find t (entries s') ≡ find t (entries s)
      → find t (entries s') ≡ settled (find t (entries s)) (on_target t r none)
  silent entries t r s s' e = e ∙ sym (on_target-silent _ t r)

  migration-policies :
      (r : GovernanceRecord) (v : Value) (s s' : GovernanceState)
      → apply_record parse_int schema migration_applied r v s ≡ ok s'
      → (s'.policies ≡ s.policies) × (s'.disabled_components ≡ s.disabled_components)
  unfolding apply_record
  migration-policies r v s s' h = elim (Bool-cases (truthy r.new_version)) [
    | inr none_given ↦
        let h' : ok s ≡ ok s' = rw none_given at h in
        let e : s ≡ s' = cc h' in
        (ap (λ x. x.policies) (sym e), ap (λ x. x.disabled_components) (sym e))
    | inl given ↦
        let h' : (int_of parse_int r.new_version >>= λ version.
        store r.target (version, v) s.schema_versions >>= λ versions.
        ok (record s { schema_versions = versions }))
            ≡ ok s' =
          rw given at h in
        let (version, _, h1) = >>=-inv (int_of parse_int r.new_version) _ h' in
        let (versions, _, h2) = >>=-inv (store r.target (version, v) s.schema_versions) _ h1 in
        let e : record s { schema_versions = versions } ≡ s' = cc h2 in
        (ap (λ x. x.policies) (sym e), ap (λ x. x.disabled_components) (sym e))
  ]

  policies_follow : IsFollowed (λ s. s.policies) policy_rule
  unfolding apply_record
  policies_follow t policy adjusted r v s s' h =
      let made : PolicyValue = record { value = r.new_version; effective_sequence = v } in
      let (policies, stored, h') = >>=-inv (store r.target made s.policies) _ h in
      let e : record s { policies = policies } ≡ s' = cc h' in
      ap (λ x. find t x.policies) (sym e)
      ∙ ap (find t) (store-inv r.target made s.policies policies stored)
      ∙ find-write t r made s.policies
  policies_follow t policy disabled r v s s' h =
      let (policies, removed, h') = >>=-inv (remove r.target s.policies) _ h in
      let e : record s { policies = policies } ≡ s' = cc h' in
      ap (λ x. find t x.policies) (sym e)
      ∙ ap (find t) (remove-inv r.target s.policies policies removed)
      ∙ find-without t r s.policies
  policies_follow t projection disabled r v s s' h =
      let (components, _, h') = >>=-inv (store r.target v s.disabled_components) _ h in
      let e : record s { disabled_components = components } ≡ s' = cc h' in
      silent (λ x. x.policies) t r s s' (ap (λ x. find t x.policies) (sym e))
  policies_follow t projection adjusted r v s s' h =
      let (components, _, h') = >>=-inv (remove r.target s.disabled_components) _ h in
      let e : record s { disabled_components = components } ≡ s' = cc h' in
      silent (λ x. x.policies) t r s s' (ap (λ x. find t x.policies) (sym e))
  policies_follow t projection topology_changed r v s s' h =
      let e : record s { projection_topology = r.target; topology_effective_sequence = v } ≡ s' =
        cc h in
      silent (λ x. x.policies) t r s s' (ap (λ x. find t x.policies) (sym e))
  policies_follow t schema migration_applied r v s s' h =
      silent (λ x. x.policies) t r s s' (ap (find t) (migration-policies r v s s' h).0)
  policies_follow t _ _ r v s s' h =
      let e : s ≡ s' = cc h in
      silent (λ x. x.policies) t r s s' (ap (λ x. find t x.policies) (sym e))

  disabled_follow : IsFollowed (λ s. s.disabled_components) disabled_rule
  unfolding apply_record
  disabled_follow t projection disabled r v s s' h =
      let (components, stored, h') = >>=-inv (store r.target v s.disabled_components) _ h in
      let e : record s { disabled_components = components } ≡ s' = cc h' in
      ap (λ x. find t x.disabled_components) (sym e)
      ∙ ap (find t) (store-inv r.target v s.disabled_components components stored)
      ∙ find-write t r v s.disabled_components
  disabled_follow t projection adjusted r v s s' h =
      let (components, removed, h') = >>=-inv (remove r.target s.disabled_components) _ h in
      let e : record s { disabled_components = components } ≡ s' = cc h' in
      ap (λ x. find t x.disabled_components) (sym e)
      ∙ ap (find t) (remove-inv r.target s.disabled_components components removed)
      ∙ find-without t r s.disabled_components
  disabled_follow t projection topology_changed r v s s' h =
      let e : record s { projection_topology = r.target; topology_effective_sequence = v } ≡ s' =
        cc h in
      silent (λ x. x.disabled_components) t r s s' (ap (λ x. find t x.disabled_components) (sym e))
  disabled_follow t policy adjusted r v s s' h =
      let made : PolicyValue = record { value = r.new_version; effective_sequence = v } in
      let (policies, _, h') = >>=-inv (store r.target made s.policies) _ h in
      let e : record s { policies = policies } ≡ s' = cc h' in
      silent (λ x. x.disabled_components) t r s s' (ap (λ x. find t x.disabled_components) (sym e))
  disabled_follow t policy disabled r v s s' h =
      let (policies, _, h') = >>=-inv (remove r.target s.policies) _ h in
      let e : record s { policies = policies } ≡ s' = cc h' in
      silent (λ x. x.disabled_components) t r s s' (ap (λ x. find t x.disabled_components) (sym e))
  disabled_follow t schema migration_applied r v s s' h =
      silent (λ x. x.disabled_components) t r s s' (ap (find t) (migration-policies r v s s' h).1)
  disabled_follow t _ _ r v s s' h =
      let e : s ≡ s' = cc h in
      silent (λ x. x.disabled_components) t r s s' (ap (λ x. find t x.disabled_components) (sym e))

  round-settled :
      {A : Type 0} (entries : GovernanceState → Dict Value A) (rule : Rule A)
      → IsFollowed entries rule
      → (t : Value) (event : EventRecord) (s s' : GovernanceState)
      → governance_round parse_int event s ≡ ok s'
      → find t (entries s') ≡ settled (find t (entries s)) (said rule t event)
  unfolding governance_round
  round-settled entries rule follows t event s s' h =
      elim (Bool-cases (is_governance event.event_type)) [
        | inr b ↦
            let h' : ok s ≡ ok s' = rw b at h in
            let e : s ≡ s' = cc h' in rw b (ap (λ x. find t (entries x)) (sym e))
        | inl b ↦ elim (Result-cases (record_from_dict event.payload)) [
          | inr (x, c) ↦
              let h' : ok s ≡ ok s' = rw (b, c) at h in
              let e : s ≡ s' = cc h' in rw (b, c) (ap (λ x. find t (entries x)) (sym e))
          | inl (r, c) ↦
              let h' : apply_record parse_int r.domain r.action r (effective_of r event) s ≡ ok s' =
                rw (b, c) at h in
              rw (b, c) (follows t r.domain r.action r (effective_of r event) s s' h')
        ]
      ]

  loop-settled :
      {A : Type 0} (entries : GovernanceState → Dict Value A) (rule : Rule A)
      → IsFollowed entries rule
      → (t : Value) (events : List EventRecord) (s s' : GovernanceState)
      → for_each (λ s event. governance_round parse_int event s) events s ≡ ok s'
      → find t (entries s') ≡ settled (find t (entries s)) (latest (said rule t) events)
  unfolding for_each
  loop-settled entries rule follows t [] s s' h =
      let e : s ≡ s' = cc h in ap (λ x. find t (entries x)) (sym e)
  loop-settled entries rule follows t (event ∷ events) s s' h =
      let (s1, h1, rest) =
        >>=-inv (governance_round parse_int event s)
          (for_each (λ s event. governance_round parse_int event s) events) h in
      loop-settled entries rule follows t events s1 s' rest
      ∙ ap (λ x. settled x (latest (said rule t) events))
          (round-settled entries rule follows t event s s1 h1)
      ∙ settled-latest (find t (entries s)) (said rule t) event events

-- Where the projection of events returns a state, the policy that it holds for a target, and the
-- sequence from which it holds the target disabled, are what the last record about them said, in
-- the order of event sequences: the value and the effective sequence where the policy was adjusted
-- or the component disabled, and no entry where the policy was disabled or the component adjusted,
-- or where no record is about them.
pub project-latest :
    (parse_int : String → Result ℤ) (events : List EventRecord) (s : GovernanceState) (t : Value)
    → project parse_int events ≡ ok s
    → (find t s.policies
        ≡ settled none (latest (said policy_rule t) (order_by (λ e. e.event_sequence) events)))
      × (find t s.disabled_components
          ≡ settled none (latest (said disabled_rule t) (order_by (λ e. e.event_sequence) events)))
unfolding project Dict.get
project-latest parse_int events s t h = (
  loop-settled parse_int (λ s. s.policies) policy_rule (policies_follow parse_int) t _ _ s h,
  loop-settled parse_int (λ s. s.disabled_components) disabled_rule (disabled_follow parse_int) t _
      _ s h,
)
