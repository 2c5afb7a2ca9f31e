-- ===== src/Pipeline/Compiled.antt =====
-- What a replay hands over under a policy that the factory compiled (schema/factory.py,
-- projections/pipeline.py, projections/service.py).
use rationale_vault.Prelude.{
  ℕ, not, Option, none, List, [], ◌∷◌, Result, ok, raise, unknown_schema, ◌≡◌, some_of,
  if◌then◌else◌,
}
use rationale_vault.Prelude.Dict
use rationale_vault.Prelude.Dict.{Dict}
use rationale_vault.Value.{Value}
use rationale_vault.Events.{EventRecord, EventType}
use rationale_vault.Schema.{SchemaPolicy, migration_path, is_current}
use rationale_vault.Pipeline.{ReplayMode, current, is_beyond}

-- No event type has a step of migration.
abbrev IsPathless : SchemaPolicy → Type 0
IsPathless policy = (t : EventType) → migration_path policy t ≡ []

-- The events before the first one beyond the bound.
abbrev pub within : Option ℕ → List EventRecord → List EventRecord
within bound [] = []
within bound (e ∷ es) = let rest = within bound es in if is_beyond bound e then [] else e ∷ rest

-- What is handed over where nothing can be upcast.
abbrev pub if_current : SchemaPolicy → List EventRecord → Result (List EventRecord)
if_current policy events =
    if some_of (λ e. not (is_current policy e)) events then raise unknown_schema else ok events

-- The sequence up to which a request asks.
abbrev pub bound_of : ReplayMode → Option ℕ → Option ℕ
bound_of current sequence = none
bound_of _ sequence = sequence
