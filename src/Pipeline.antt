-- ===== src/Pipeline.antt =====
-- schema/factory.py, and context.py, pipeline.py and service.py of projections/: the schema policy
-- that a governance state gives, and the events that a projection is handed under it. The service
-- reads the SQLite event store.
mod Versions
pub mod Compiled
mod Tests
use rationale_vault.Prelude.{
  ℕ, String, Bool, true, false, not, Option, none, some, List, [], ◌∷◌, Result, ok, raise,
  value_error, not_implemented_error, ◌>>=◌, some_of, ltb, str_eq, text_discrete, if◌then◌else◌,
}
use rationale_vault.Prelude.Dict
use rationale_vault.Prelude.Dict.{Dict}
use rationale_vault.Value.{Value, ℤ, num, pos, text}
use rationale_vault.Events.{
  EventRecord, EventType, EventType_discrete, project_created, project_goal_set,
  project_focus_changed, task_created, task_mutated, task_completed, task_progress_noted,
  decision_proposed, decision_accepted, decision_superseded, open_question_raised,
  open_question_resolved, skill_executed, other,
}
use rationale_vault.EventStore.{EventTable, get_project_stream}
use rationale_vault.CognitiveHead.Head.{less}
use rationale_vault.Schema.{EventSchema, SchemaPolicy, UpcasterRegistry, default_upcasters, resolve}
use rationale_vault.Governance.{GovernanceState}

-- The members of the enumeration: those with a constructor, and the values of the others.
abbrev pub named_types : Dict String EventType
named_types =
    ("PROJECT_CREATED", project_created)
    ∷ ("PROJECT_GOAL_SET", project_goal_set)
    ∷ ("PROJECT_FOCUS_CHANGED", project_focus_changed)
    ∷ ("TASK_CREATED", task_created)
    ∷ ("TASK_MUTATED", task_mutated)
    ∷ ("TASK_COMPLETED", task_completed)
    ∷ ("DECISION_PROPOSED", decision_proposed)
    ∷ ("DECISION_ACCEPTED", decision_accepted)
    ∷ ("DECISION_SUPERSEDED", decision_superseded)
    ∷ ("OPEN_QUESTION_RAISED", open_question_raised)
    ∷ ("OPEN_QUESTION_RESOLVED", open_question_resolved)
    ∷ ("TASK_PROGRESS_NOTED", task_progress_noted)
    ∷ ("SKILL_EXECUTED", skill_executed)
    ∷ []

abbrev pub other_types : List String
other_types =
    "FACT_RECORDED" ∷ "RELATIONSHIP_CREATED" ∷ "RELATIONSHIP_SUPERSEDED" ∷ "REFLECTION_GENERATED"
    ∷ "MEMORY_RECORDED" ∷ "MEMORY_CONSOLIDATED" ∷ "MEMORY_REFERENCED" ∷ "MEMORY_SUPERSEDED"
    ∷ "MEMORY_ARCHIVED" ∷ "MEMORY_RANKED" ∷ "CONSOLIDATION_CANDIDATE" ∷ "RETRIEVAL_AUDITED"
    ∷ "RETRIEVAL_EXECUTED" ∷ "QUESTION_LOSS" ∷ "CONTEXT_DRIFT" ∷ "DECISION_MUTATION"
    ∷ "DECISION_CONTRADICTION" ∷ "KNOWLEDGE_SYNTHESIZED" ∷ "KNOWLEDGE_SUPERSEDED"
    ∷ "KNOWLEDGE_CONTRADICTION" ∷ "KNOWLEDGE_CREATED" ∷ "KNOWLEDGE_UPDATED" ∷ "KNOWLEDGE_DELETED"
    ∷ "CONTEXT_SNAPSHOT_RECORDED" ∷ "GOVERNANCE_DECISION_RECORDED" ∷ "GOVERNANCE_RULE_CREATED"
    ∷ "GOVERNANCE_RULE_UPDATED" ∷ "GOVERNANCE_RULE_DELETED" ∷ "KNOWLEDGE_PROMOTION_CANDIDATE"
    ∷ "KNOWLEDGE_PROMOTION_ASSESSED" ∷ "KNOWLEDGE_PROMOTION_GATED" ∷ "KNOWLEDGE_PROMOTION_APPROVED"
    ∷ "KNOWLEDGE_PROMOTION_REJECTED" ∷ []

-- `EventType(v)`
unfoldable pub event_type_of : Value → Result EventType
event_type_of (text s) = elim (Dict.get text_discrete s named_types) [
  | some event_type ↦ ok event_type
  | none ↦ if some_of (str_eq s) other_types then ok (other s) else raise value_error
]
event_type_of v = raise value_error

-- An entry whose key is no event type is passed over.
unfoldable pub add_schema : Value → ℤ → SchemaPolicy → SchemaPolicy
add_schema key version schemas = elim (event_type_of key) [
  | raise e ↦ schemas
  | ok event_type ↦
      Dict.put EventType_discrete event_type
        (record { event_type = event_type; latest_version = version; migration_path = [] }) schemas
]

unfoldable pub add_schemas : Dict Value (ℤ × Value) → SchemaPolicy → SchemaPolicy
add_schemas [] schemas = schemas
add_schemas ((key, (version, effective)) ∷ versions) schemas =
    add_schemas versions (add_schema key version schemas)

-- `SchemaPolicyFactory.compile`
unfoldable pub compile : GovernanceState → SchemaPolicy
compile g = add_schemas g.schema_versions []

unfoldable pub add_schemas_until : ℕ → Dict Value (ℤ × Value) → SchemaPolicy → Result SchemaPolicy
add_schemas_until sequence [] schemas = ok schemas
add_schemas_until sequence ((key, (version, effective)) ∷ versions) schemas = do
  later ← less (num (pos sequence)) effective
  add_schemas_until sequence versions (if later then schemas else add_schema key version schemas)

unfoldable pub compile_at_sequence : GovernanceState → ℕ → Result SchemaPolicy
compile_at_sequence g sequence = add_schemas_until sequence g.schema_versions []

pub data ReplayMode : Type 0 where
  current historical interpretive counterfactual : ReplayMode

pub record ReplayContext : Type 0 where
  pub max_sequence : Option ℕ
  pub schema_policy : SchemaPolicy

pub record ReplayRequest : Type 0 where
  pub mode : ReplayMode
  pub sequence : Option ℕ

pub record InterpretiveContext : Type 0 where
  pub governance : GovernanceState
  pub replay_mode : ReplayMode
  pub sequence : Option ℕ
  pub replay_context : ReplayContext

-- The context that `build` makes up to a sequence.
abbrev pub context_of : GovernanceState → ReplayMode → Option ℕ → InterpretiveContext
context_of g mode sequence = record {
  governance = g;
  replay_mode = mode;
  sequence = sequence;
  replay_context = record { max_sequence = sequence; schema_policy = compile g };
}

-- `InterpretiveContextBuilder.build`
unfoldable pub build_context : GovernanceState → ReplayRequest → Result InterpretiveContext
build_context g request = elim request.mode [
  | counterfactual ↦ raise not_implemented_error
  | current ↦ ok (context_of g current none)
  | historical ↦ ok (context_of g historical request.sequence)
  | interpretive ↦ ok (context_of g interpretive request.sequence)
]

-- `max_sequence is not None and event.event_sequence > max_sequence`
unfoldable pub is_beyond : Option ℕ → EventRecord → Bool
is_beyond none event = false
is_beyond (some bound) event = ltb bound event.event_sequence

-- `ReplayPipeline.process`: the loop ends at the first event beyond the bound.
unfoldable pub process :
    ReplayContext → UpcasterRegistry → List EventRecord → Result (List EventRecord)
process context registry [] = ok []
process context registry (event ∷ events) =
    let rest = process context registry events in
    if is_beyond context.max_sequence event then ok [] else (do
      resolved ← resolve context.schema_policy registry event
      processed ← rest
      ok (resolved ∷ processed))

-- The contexts that the service takes, and the one that it hands on.
pub data ServiceContext : Type 0 where
  of_replay : ReplayContext → ServiceContext
  of_interpretive : InterpretiveContext → ServiceContext

unfoldable pub to_replay_context : Option ServiceContext → ReplayContext
to_replay_context none = record { max_sequence = none; schema_policy = [] }
to_replay_context (some (of_replay context)) = context
to_replay_context (some (of_interpretive context)) = context.replay_context

-- `registry or UpcasterRegistry.default()`
unfoldable pub registry_or_default : Option UpcasterRegistry → UpcasterRegistry
registry_or_default none = default_upcasters
registry_or_default (some registry) = registry

-- `ReplayService.load_project_events`
unfoldable pub load_project_events :
    EventTable
    → Option UpcasterRegistry
    → String
    → Option ServiceContext
    → Result (List EventRecord)
load_project_events table registry project_id context =
    process (to_replay_context context) (registry_or_default registry)
      (get_project_stream table project_id 0)
