-- ===== src/Governance/Tests.antt =====
-- Two governance events, the later one stored first, and what is projected of them.
use rationale_vault.Prelude.{
  ℕ, String, ◌≡◌, refl, none, List, [], ◌∷◌, Result, ok, raise, value_error, text_discrete,
  ℕ_discrete, str_eq, if◌then◌else◌, order_by, exchanged,
}
use mathlib.Core.Path.{subst}
use rationale_vault.Prelude.Dict
use rationale_vault.Value.{
  ℤ, num, pos, text, Value_discrete, truthy, hashable, lookup, lookup_or, item,
}
use rationale_vault.Events.{EventRecord, other, for_each}
use rationale_vault.CognitiveHead.States.{store}
use rationale_vault.CognitiveHead.States.Updates.{find}
use rationale_vault.Governance.{
  GovernanceRecord, policy, adjusted, domain_value, action_value, domain_of, action_of,
  record_to_dict, record_from_dict, GovernanceState, default_governance, is_governance,
  effective_of, apply_record, governance_round, project,
}
use rationale_vault.Governance.Record.{record_from_dict-record_to_dict}
use rationale_vault.Governance.Order.{project-Reordered}
use rationale_vault.Governance.Verdict.{settled, latest, said, policy_rule, disabled_rule}
use rationale_vault.Governance.Latest.{project-latest}
use rationale_vault.Governance.Returns.{IsReadable, IsApplicable, project-returns}

abbrev parse_int : String → Result ℤ
parse_int s = if str_eq s "2" then ok (pos 2) else raise value_error

abbrev decision : ℕ → GovernanceRecord
decision limit = record {
  domain = policy;
  action = adjusted;
  target = text "limit";
  previous_version = num (pos 1);
  new_version = num (pos limit);
  rationale = text "";
  approved_by = text "lead";
  effective_sequence = num (pos 0);
}

abbrev event : ℕ → ℕ → EventRecord
event sequence limit = record {
  event_sequence = sequence;
  id = "e";
  project_id = "p";
  stream_id = "main";
  version = sequence;
  event_type = other "GOVERNANCE_DECISION_RECORDED";
  metadata = record { actor = "lead"; source = "cli"; correlation_id = ""; session_id = "" };
  payload = record_to_dict (decision limit);
  parent_id = none;
  recorded_at = none;
  schema_version = num (pos 1);
}

abbrev events : List EventRecord
events = event 7 20 ∷ event 3 10 ∷ []

program : Unit {0}
unfolding order_by Dict.get Dict.put text_discrete ℕ_discrete Value_discrete truthy hashable lookup
    lookup_or item for_each store domain_value action_value domain_of action_of record_to_dict
    record_from_dict is_governance effective_of apply_record governance_round project
program = tt

final : Result GovernanceState
unfolding program
final = project parse_int events

state : GovernanceState
unfolding program
state = record default_governance {
  policies = (text "limit", record { value = num (pos 20); effective_sequence = num (pos 7) }) ∷ [];
}

projected : project parse_int events ≡ ok state
unfolding program state
projected = refl

read : (limit : ℕ) → IsApplicable parse_int (decision limit)
unfolding program
read limit = (refl, (λ e. cc e))

readable : (sequence limit : ℕ) → IsReadable parse_int (event sequence limit)
readable sequence limit _ r e =
    let same : decision limit ≡ r = cc (record_from_dict-record_to_dict (decision limit), e) in
    subst (IsApplicable parse_int) same (read limit)

record_from_dict-record_to_dict_example :
    record_from_dict (record_to_dict (decision 5)) ≡ ok (decision 5)
record_from_dict-record_to_dict_example = record_from_dict-record_to_dict (decision 5)

project-Reordered_example :
    project parse_int events ≡ project parse_int (event 3 10 ∷ event 7 20 ∷ [])
project-Reordered_example =
    project-Reordered parse_int events (event 3 10 ∷ event 7 20 ∷ [])
      (exchanged (event 7 20) (event 3 10) [] (λ e. cc e))

project-latest_example :
    (find (text "limit") state.policies
      ≡ settled none
          (latest (said policy_rule (text "limit")) (order_by (λ e. e.event_sequence) events)))
    × (find (text "limit") state.disabled_components
        ≡ settled none
            (latest (said disabled_rule (text "limit")) (order_by (λ e. e.event_sequence) events)))
project-latest_example = project-latest parse_int events state (text "limit") projected

project-returns_example : (s : GovernanceState) × (project parse_int events ≡ ok s)
project-returns_example = project-returns parse_int events (readable 7 20, (readable 3 10, tt))
