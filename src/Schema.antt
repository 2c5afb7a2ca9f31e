-- ===== src/Schema.antt =====
-- schema/policy.py, schema/upcaster.py and schema/resolver.py: how an event of an older schema
-- version is brought to the latest one. An upcaster is any function of payloads that may raise. The
-- registry's keys hold the event type in place of its text, of which each type has its own.
pub mod Resolution
mod Tests
use rationale_vault.Prelude.{
  ℕ, String, Bool, true, false, not, Option, none, some, List, [], ◌∷◌, Result, ok, raise,
  unknown_schema, ◌>>=◌, ◌==◌, ℕ_discrete, text_discrete, if◌then◌else◌,
}
use rationale_vault.Prelude.Dict
use rationale_vault.Prelude.Dict.{Dict}
use rationale_vault.Value.{
  ℤ, pos, num, ℤ_discrete, is_int, Value, Payload, text, obj, to_fields, lookup_or,
}
use rationale_vault.Events.{
  EventRecord, EventType, EventType_discrete, task_created, decision_proposed,
}

pub record MigrationStep : Type 0 where
  pub from_version : ℤ
  pub to_version : ℤ

abbrev pub MigrationPath : Type 0
MigrationPath = List MigrationStep

pub record EventSchema : Type 0 where
  pub event_type : EventType
  pub latest_version : ℤ
  pub migration_path : MigrationPath

abbrev pub SchemaPolicy : Type 0
SchemaPolicy = Dict EventType EventSchema

unfoldable pub latest_version : SchemaPolicy → EventType → ℤ
latest_version policy event_type = elim (Dict.get EventType_discrete event_type policy) [
  | some found ↦ found.latest_version
  | none ↦ pos 1
]

unfoldable pub schema : SchemaPolicy → EventType → EventSchema
schema policy event_type = elim (Dict.get EventType_discrete event_type policy) [
  | some found ↦ found
  | none ↦ record { event_type = event_type; latest_version = pos 1; migration_path = [] }
]

unfoldable pub migration_path : SchemaPolicy → EventType → MigrationPath
migration_path policy event_type = (schema policy event_type).migration_path

unfoldable pub is_current : SchemaPolicy → EventRecord → Bool
is_current policy event = is_int (latest_version policy event.event_type) event.schema_version

-- The loop of `can_resolve`, which stops at the target.
unfoldable pub walk : ℤ → MigrationPath → Value → Value
walk target [] current = current
walk target (step ∷ steps) current =
    let further = walk target steps (num step.to_version) in
    let past = walk target steps current in
    if is_int target current
    then current
    else if is_int step.from_version current
    then further
    else past

unfoldable pub can_resolve : SchemaPolicy → EventRecord → Bool
can_resolve policy event =
    if is_current policy event then true else elim (migration_path policy event.event_type) [
      | [] ↦ false
      | step ∷ steps ↦
          is_int (latest_version policy event.event_type)
            (walk (latest_version policy event.event_type) (step ∷ steps) event.schema_version)
    ]

abbrev pub UpcasterCallable : Type 0
UpcasterCallable = Payload → Result Payload

abbrev pub UpcasterRegistry : Type 0
UpcasterRegistry = Dict (EventType × ℤ) UpcasterCallable

unfoldable pub key_discrete : Discrete (EventType × ℤ)
key_discrete = hlevel (EventType_discrete, ℤ_discrete)

unfoldable pub register : UpcasterRegistry → EventType → ℤ → UpcasterCallable → UpcasterRegistry
register registry event_type source_version upcaster =
    Dict.put key_discrete (event_type, source_version) upcaster registry

unfoldable pub get_upcaster : UpcasterRegistry → EventType → ℤ → Option UpcasterCallable
get_upcaster registry event_type source_version =
    Dict.get key_discrete (event_type, source_version) registry

unfoldable pub task_created_v1_to_v2 : UpcasterCallable
task_created_v1_to_v2 payload =
    let rest =
      Dict.without text_discrete "description" (Dict.without text_discrete "title" payload) in
    ok (
      Dict.put text_discrete "details"
        (obj (
          to_fields (
            ("summary", lookup_or payload "title" (text ""))
            ∷ ("body", lookup_or payload "description" (text ""))
            ∷ [])))
        rest)

-- `payload.setdefault(key, value)`
unfoldable pub set_default : String → Value → Payload → Payload
set_default key value payload = elim (Dict.get text_discrete key payload) [
  | some there ↦ payload
  | none ↦ Dict.put text_discrete key value payload
]

unfoldable pub decision_proposed_v1_to_v2 : UpcasterCallable
decision_proposed_v1_to_v2 payload =
    ok (set_default "category" (text "general") (set_default "context" (text "") payload))

-- `UpcasterRegistry.default()`
abbrev pub default_upcasters : UpcasterRegistry
default_upcasters =
    ((task_created, pos 1), task_created_v1_to_v2)
    ∷ ((decision_proposed, pos 1), decision_proposed_v1_to_v2)
    ∷ []

-- The loop of `resolve`, which goes through every step of the path.
unfoldable pub upcast :
    UpcasterRegistry → EventType → MigrationPath → Payload → Value → Result (Payload × Value)
upcast registry event_type [] payload current = ok (payload, current)
upcast registry event_type (step ∷ steps) payload current =
    let past = upcast registry event_type steps payload current in
    if is_int step.from_version current
    then elim (get_upcaster registry event_type step.from_version) [
      | none ↦ raise unknown_schema
      | some upcaster ↦ do
        payload' ← upcaster payload
        upcast registry event_type steps payload' (num step.to_version)
    ]
    else past

-- `ReplayResolver.resolve`
unfoldable pub resolve : SchemaPolicy → UpcasterRegistry → EventRecord → Result EventRecord
resolve policy registry event =
    if is_current policy event
    then ok event
    else if not (can_resolve policy event)
    then raise unknown_schema
    else (do
      resolved ←
          upcast registry event.event_type (migration_path policy event.event_type) event.payload
            event.schema_version
      ok (record event { payload = resolved.0; schema_version = resolved.1 }))
