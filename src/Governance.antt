-- ===== src/Governance.antt =====
-- projections/governance.py, and the governance records of schema/events.py. `int(…)` of a text is
-- the parameter `parse_int`.
pub mod Order
pub mod Latest
pub mod Returns
pub mod Verdict
pub mod Record
mod Tests
use rationale_vault.Prelude.{
  ℕ, zero, suc, String, Bool, true, false, Option, none, some, List, [], ◌∷◌, Result, ok, raise,
  value_error, type_error, ◌>>=◌, order_by, str_eq, if◌then◌else◌,
}
use rationale_vault.Prelude.Dict
use rationale_vault.Prelude.Dict.{Dict}
use rationale_vault.Value.{
  ℤ, Value, Payload, null, bool, num, pos, negsuc, text, arr, obj, Value_discrete, truthy, hashable,
  lookup, lookup_or, item,
}
use rationale_vault.Events.{EventRecord, EventType, other, for_each}
use rationale_vault.CognitiveHead.States.{store}
use rationale_vault.CognitiveHead.Head.{less}

pub data GovernanceDomain : Type 0 where
  policy projection schema : GovernanceDomain

pub data GovernanceAction : Type 0 where
  adjusted topology_changed migration_applied deprecated disabled : GovernanceAction

pub record GovernanceRecord : Type 0 where
  pub domain : GovernanceDomain
  pub action : GovernanceAction
  pub target : Value
  pub previous_version : Value
  pub new_version : Value
  pub rationale : Value
  pub approved_by : Value
  pub effective_sequence : Value

-- `domain.value`, `action.value`
unfoldable pub domain_value : GovernanceDomain → String
domain_value policy = "POLICY"
domain_value projection = "PROJECTION"
domain_value schema = "SCHEMA"

unfoldable pub action_value : GovernanceAction → String
action_value adjusted = "ADJUSTED"
action_value topology_changed = "TOPOLOGY_CHANGED"
action_value migration_applied = "MIGRATION_APPLIED"
action_value deprecated = "DEPRECATED"
action_value disabled = "DISABLED"

-- `GovernanceDomain(v)`, `GovernanceAction(v)`
unfoldable pub domain_of : Value → Result GovernanceDomain
domain_of (text s) =
    if str_eq s "POLICY"
    then ok policy
    else if str_eq s "PROJECTION"
    then ok projection
    else if str_eq s "SCHEMA"
    then ok schema
    else raise value_error
domain_of v = raise value_error

unfoldable pub action_of : Value → Result GovernanceAction
action_of (text s) =
    if str_eq s "ADJUSTED"
    then ok adjusted
    else if str_eq s "TOPOLOGY_CHANGED"
    then ok topology_changed
    else if str_eq s "MIGRATION_APPLIED"
    then ok migration_applied
    else if str_eq s "DEPRECATED"
    then ok deprecated
    else if str_eq s "DISABLED"
    then ok disabled
    else raise value_error
action_of v = raise value_error

-- `GovernanceRecord.to_dict` and `GovernanceRecord.from_dict`
unfoldable pub record_to_dict : GovernanceRecord → Payload
record_to_dict r =
    ("domain", text (domain_value r.domain))
    ∷ ("action", text (action_value r.action))
    ∷ ("target", r.target)
    ∷ ("previous_version", r.previous_version)
    ∷ ("new_version", r.new_version)
    ∷ ("rationale", r.rationale)
    ∷ ("approved_by", r.approved_by)
    ∷ ("effective_sequence", r.effective_sequence)
    ∷ []

unfoldable pub record_from_dict : Payload → Result GovernanceRecord
record_from_dict d = do
  domain_field ← item d "domain"
  domain ← domain_of domain_field
  action_field ← item d "action"
  action ← action_of action_field
  target ← item d "target"
  ok (record {
    domain = domain;
    action = action;
    target = target;
    previous_version = lookup d "previous_version";
    new_version = lookup d "new_version";
    rationale = lookup_or d "rationale" (text "");
    approved_by = lookup d "approved_by";
    effective_sequence = lookup_or d "effective_sequence" (num (pos 0));
  })

pub record PolicyValue : Type 0 where
  pub value : Value
  pub effective_sequence : Value

pub record GovernanceState : Type 0 where
  pub policies : Dict Value PolicyValue
  pub projection_topology : Value
  pub topology_effective_sequence : Value
  pub schema_versions : Dict Value (ℤ × Value)
  pub disabled_components : Dict Value Value

abbrev pub default_governance : GovernanceState
default_governance = record {
  policies = [];
  projection_topology = text "default";
  topology_effective_sequence = num (pos 0);
  schema_versions = [];
  disabled_components = [];
}

-- `sequence is not None and effective > sequence`
unfoldable pub is_later : Value → Option ℕ → Result Bool
is_later effective none = ok false
is_later effective (some sequence) = less (num (pos sequence)) effective

unfoldable pub get_effective_policy : GovernanceState → String → Option ℕ → Result Value
get_effective_policy s name sequence = elim (Dict.get Value_discrete (text name) s.policies) [
  | none ↦ ok null
  | some found ↦ do
    later ← is_later found.effective_sequence sequence
    ok (if later then null else found.value)
]

unfoldable pub get_effective_schema_version : GovernanceState → String → Option ℕ → Result ℤ
get_effective_schema_version s event_type sequence =
    elim (Dict.get Value_discrete (text event_type) s.schema_versions) [
      | none ↦ ok (pos 1)
      | some (version, effective) ↦ do
        later ← is_later effective sequence
        ok (if later then pos 1 else version)
    ]

unfoldable pub is_component_disabled : GovernanceState → String → Option ℕ → Result Bool
is_component_disabled s name sequence =
    elim (Dict.get Value_discrete (text name) s.disabled_components) [
      | none ↦ ok false
      | some effective ↦ do later ← is_later effective sequence; ok (if later then false else true)
    ]

-- `d.pop(k, None)`, which does not hash the key where the dict is empty
unfoldable pub remove : {A : Type 0} → Value → Dict Value A → Result (Dict Value A)
remove k [] = ok []
remove k d = if hashable k then ok (Dict.without Value_discrete k d) else raise type_error

-- `et_str == "GOVERNANCE_DECISION_RECORDED"`
unfoldable pub is_governance : EventType → Bool
is_governance (other s) = str_eq s "GOVERNANCE_DECISION_RECORDED"
is_governance _ = false

-- `record.effective_sequence or event.event_sequence`
unfoldable pub effective_of : GovernanceRecord → EventRecord → Value
effective_of r event =
    if truthy r.effective_sequence then r.effective_sequence else num (pos event.event_sequence)

module _ (parse_int : String → Result ℤ) where
  -- `int(v)`
  unfoldable pub int_of : Value → Result ℤ
  int_of (text s) = parse_int s
  int_of (num n) = ok n
  int_of (bool b) = ok (pos (if b then 1 else 0))
  int_of v = raise type_error

  -- The branches on domain and action; any other pair changes nothing.
  unfoldable pub apply_record :
      GovernanceDomain
      → GovernanceAction
      → GovernanceRecord
      → Value
      → GovernanceState
      → Result GovernanceState
  apply_record policy adjusted r effective s = do
    policies ←
        store r.target (record { value = r.new_version; effective_sequence = effective }) s.policies
    ok (record s { policies = policies })
  apply_record policy disabled r effective s = do
    policies ← remove r.target s.policies
    ok (record s { policies = policies })
  apply_record projection topology_changed r effective s =
      ok (record s { projection_topology = r.target; topology_effective_sequence = effective })
  apply_record projection disabled r effective s = do
    components ← store r.target effective s.disabled_components
    ok (record s { disabled_components = components })
  apply_record projection adjusted r effective s = do
    components ← remove r.target s.disabled_components
    ok (record s { disabled_components = components })
  apply_record schema migration_applied r effective s =
      if truthy r.new_version
      then (do
        version ← int_of r.new_version
        versions ← store r.target (version, effective) s.schema_versions
        ok (record s { schema_versions = versions }))
      else ok s
  apply_record _ _ r effective s = ok s

  -- A payload that is no governance record is logged and passed over.
  unfoldable pub governance_round : EventRecord → GovernanceState → Result GovernanceState
  governance_round event s =
      if is_governance event.event_type
      then elim (record_from_dict event.payload) [
        | raise e ↦ ok s
        | ok r ↦ apply_record r.domain r.action r (effective_of r event) s
      ]
      else ok s

  -- `GovernanceProjection.project`
  unfoldable pub project : List EventRecord → Result GovernanceState
  project events =
      for_each (λ s event. governance_round event s) (order_by (λ e. e.event_sequence) events)
        default_governance
