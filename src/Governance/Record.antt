-- ===== src/Governance/Record.antt =====
-- Writing a governance record as a payload and reading it again (schema/events.py).
use rationale_vault.Prelude.{◌≡◌, refl, text_discrete, ok}
use rationale_vault.Prelude.Dict
use rationale_vault.Value.{text, lookup, lookup_or, item}
use rationale_vault.Governance.{
  GovernanceDomain, GovernanceAction, GovernanceRecord, policy, projection, schema, adjusted,
  topology_changed, migration_applied, deprecated, disabled, domain_value, action_value, domain_of,
  action_of, record_to_dict, record_from_dict,
}

domain_of-domain_value : (d : GovernanceDomain) → domain_of (text (domain_value d)) ≡ ok d
unfolding domain_of domain_value
domain_of-domain_value policy = refl
domain_of-domain_value projection = refl
domain_of-domain_value schema = refl

action_of-action_value : (a : GovernanceAction) → action_of (text (action_value a)) ≡ ok a
unfolding action_of action_value
action_of-action_value adjusted = refl
action_of-action_value topology_changed = refl
action_of-action_value migration_applied = refl
action_of-action_value deprecated = refl
action_of-action_value disabled = refl

-- A governance record that is written as a payload is read from it again, whatever its fields hold.
pub record_from_dict-record_to_dict :
    (r : GovernanceRecord) → record_from_dict (record_to_dict r) ≡ ok r
unfolding record_from_dict record_to_dict lookup lookup_or item Dict.get text_discrete
record_from_dict-record_to_dict r =
    rw (domain_of-domain_value r.domain, action_of-action_value r.action) refl
