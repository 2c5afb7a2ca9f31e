-- ===== src/Schema/Tests.antt =====
-- A task of version 1, resolved by the default upcasters under a policy whose latest version is 2.
use rationale_vault.Prelude.{◌≡◌, refl, true, none, [], ◌∷◌, ok, text_discrete, ℕ_discrete}
use rationale_vault.Prelude.Dict
use rationale_vault.Value.{Payload, Value, num, pos, is_int, same_int, ℤ_discrete, text, lookup_or}
use rationale_vault.Events.{EventRecord, EventType_discrete, task_created}
use rationale_vault.Schema.{
  SchemaPolicy, latest_version, schema, migration_path, is_current, walk, can_resolve, key_discrete,
  get_upcaster, default_upcasters, task_created_v1_to_v2, upcast, resolve,
}
use rationale_vault.Schema.Resolution.{EndsAt, IsRegistered, Carries, resolve-reaches}

abbrev policy : SchemaPolicy
policy =
    (
      task_created,
      record {
        event_type = task_created;
        latest_version = pos 2;
        migration_path = record { from_version = pos 1; to_version = pos 2 } ∷ [];
      },
    )
    ∷ []

abbrev event : EventRecord
event = record {
  event_sequence = 4;
  id = "e4";
  project_id = "p";
  stream_id = "main";
  version = 4;
  event_type = task_created;
  metadata = record { actor = "claude"; source = "cli"; correlation_id = ""; session_id = "" };
  payload = ("task_id", text "t1") ∷ ("title", text "Ship") ∷ [];
  parent_id = none;
  recorded_at = none;
  schema_version = num (pos 1);
}

program : Unit {0}
unfolding latest_version schema migration_path is_current walk can_resolve key_discrete get_upcaster
    Dict.get Dict.put Dict.without text_discrete EventType_discrete lookup_or task_created_v1_to_v2
    upcast resolve ℕ_discrete ℤ_discrete same_int is_int
program = tt

ends : EndsAt (latest_version policy task_created) (migration_path policy task_created)
unfolding program
ends = (refl, tt)

registered : IsRegistered default_upcasters task_created (migration_path policy task_created)
unfolding program
registered = ((task_created_v1_to_v2, refl, (λ p. (_, refl))), tt)

resolvable : can_resolve policy event ≡ true
unfolding program
resolvable = refl

resolve-reaches_example :
    (q : Payload) × (v : Value) × (is_int (latest_version policy task_created) v ≡ true)
    × Carries default_upcasters task_created
        (latest_version policy task_created)
        (migration_path policy task_created)
        (num (pos 1))
        event.payload
        q
        v
    × (resolve policy default_upcasters event
        ≡ ok (record event { payload = q; schema_version = v }))
    × (resolve policy default_upcasters (record event { payload = q; schema_version = v })
        ≡ ok (record event { payload = q; schema_version = v }))
resolve-reaches_example = resolve-reaches policy default_upcasters event ends registered resolvable
