-- ===== src/Schema/Resolution.antt =====
-- What resolution of an event gives (schema/resolver.py against schema/policy.py).
use rationale_vault.Prelude.{
  true, false, Bool-cases, some, [], ◌∷◌, ok, ◌≡◌, refl, ap, inl, inr, All, ◌⊎◌, ==_iff,
  if◌then◌else◌,
}
use mathlib.Core.Path.{subst}
use rationale_vault.Value.{ℤ, pos, negsuc, Value, num, bool, Payload, same_int, is_int}
use rationale_vault.Events.{EventRecord, EventType}
use rationale_vault.Schema.{
  MigrationStep, MigrationPath, SchemaPolicy, latest_version, migration_path, is_current, walk,
  can_resolve, UpcasterCallable, UpcasterRegistry, get_upcaster, upcast, resolve,
}

-- Every step has an upcaster that raises on no payload.
abbrev pub IsRegistered : UpcasterRegistry → EventType → MigrationPath → Type 0
IsRegistered registry event_type path =
    All
      (λ step.
        (upcaster : UpcasterCallable) × (get_upcaster registry event_type step.from_version
          ≡ some upcaster)
        × ((p : Payload) → (q : Payload) × (upcaster p ≡ ok q)))
      path

-- No step leaves the target.
abbrev pub EndsAt : ℤ → MigrationPath → Type 0
EndsAt target path = All (λ step. same_int step.from_version target ≡ false) path

same_int-eq : (i j : ℤ) → same_int i j ≡ true → i ≡ j
unfolding same_int
same_int-eq (pos m) (pos n) h = ap pos ((==_iff m n).0 h)
same_int-eq (negsuc m) (negsuc n) h = ap negsuc ((==_iff m n).0 h)
same_int-eq (pos m) (negsuc n) h = absurd (cc h)
same_int-eq (negsuc m) (pos n) h = absurd (cc h)

-- A value that is one integer is no other.
is_int_other : (i j : ℤ) (v : Value) → is_int i v ≡ true → same_int j i ≡ false → is_int j v ≡ false
unfolding is_int
is_int_other i j (num k) h other = subst (λ x. same_int j x ≡ false) (same_int-eq i k h) other
is_int_other i j (bool b) h other =
    subst (λ x. same_int j x ≡ false) (same_int-eq i (pos (if b then 1 else 0)) h) other
is_int_other i j v h other = refl

-- At the target, no step applies.
upcast-target :
    (registry : UpcasterRegistry) (event_type : EventType) (path : MigrationPath)
    (payload : Payload) (target : ℤ) (current : Value)
    → is_int target current ≡ true
    → EndsAt target path
    → upcast registry event_type path payload current ≡ ok (payload, current)
unfolding upcast
upcast-target registry event_type [] payload target current there ends = refl
upcast-target registry event_type (step ∷ path) payload target current there ends =
    rw (is_int_other target step.from_version current there ends.0)
      (upcast-target registry event_type path payload target current there ends.1)

-- How steps of the path carry a payload from a version to the target: the first step that is left
-- and starts at the version is taken with its registered upcaster, up to the target.
module _ (registry : UpcasterRegistry) (event_type : EventType) (target : ℤ) where
  pub data Carries : MigrationPath → Value → Payload → Payload → Value → Type 0 where
    arrived :
        (path : MigrationPath) (current : Value) (payload : Payload)
        → is_int target current ≡ true
        → Carries path current payload payload current
    passed :
        (step : MigrationStep) (path : MigrationPath) (current : Value) (payload q : Payload)
        (v : Value)
        → is_int target current ≡ false
        → is_int step.from_version current ≡ false
        → Carries path current payload q v
        → Carries (step ∷ path) current payload q v
    taken :
        (step : MigrationStep) (path : MigrationPath) (upcaster : UpcasterCallable)
        (current : Value) (payload p q : Payload) (v : Value)
        → is_int target current ≡ false
        → is_int step.from_version current ≡ true
        → get_upcaster registry event_type step.from_version ≡ some upcaster
        → upcaster payload ≡ ok p
        → Carries path (num step.to_version) p q v
        → Carries (step ∷ path) current payload q v

-- Where the loop of can_resolve gets to the target, the loop of resolve carries the payload there.
upcast-walk :
    (registry : UpcasterRegistry) (event_type : EventType) (path : MigrationPath)
    (payload : Payload) (target : ℤ) (current : Value)
    → EndsAt target path
    → IsRegistered registry event_type path
    → is_int target (walk target path current) ≡ true
    → (q : Payload) × (v : Value) × (is_int target v ≡ true)
      × (upcast registry event_type path payload current ≡ ok (q, v))
      × Carries registry event_type target path current payload q v
unfolding upcast walk
upcast-walk registry event_type [] payload target current ends registered h =
    (payload, current, h, refl, arrived [] current payload h)
upcast-walk registry event_type (step ∷ path) payload target current ends registered h =
    elim (Bool-cases (is_int target current)) [
      | inl at ↦ (
        payload,
        current,
        at,
        upcast-target registry event_type (step ∷ path) payload target current at ends,
        arrived (step ∷ path) current payload at,
      )
      | inr away ↦ elim (Bool-cases (is_int step.from_version current)) [
        | inl here ↦
            let (upcaster, found, total) = registered.0 in
            let (p, made) = total payload in
            let h' : is_int target (walk target path (num step.to_version)) ≡ true =
              rw (away, here) at h in
            let (q, v, there, rest, carried) =
              upcast-walk registry event_type path p target (num step.to_version) ends.1
                registered.1 h' in
            (
              q,
              v,
              there,
              rw (here, found, made) rest,
              taken step path upcaster current payload p q v away here found made carried,
            )
        | inr past ↦
            let h' : is_int target (walk target path current) ≡ true = rw (away, past) at h in
            let (q, v, there, rest, carried) =
              upcast-walk registry event_type path payload target current ends.1 registered.1 h' in
            (q, v, there, rw past rest, passed step path current payload q v away past carried)
      ]
    ]

path-cases :
    (path : MigrationPath)
    → (path ≡ []) ⊎ ((s : MigrationStep) × (rest : MigrationPath) × (path ≡ s ∷ rest))
path-cases [] = inl refl
path-cases (s ∷ rest) = inr (s, rest, refl)

-- An event that is not current and can be resolved: its walk ends at the latest version.
can_resolve-walk :
    (policy : SchemaPolicy) (event : EventRecord)
    → is_current policy event ≡ false
    → can_resolve policy event ≡ true
    → is_int (latest_version policy event.event_type) (
        walk
          (latest_version policy event.event_type)
          (migration_path policy event.event_type)
          event.schema_version)
      ≡ true
unfolding can_resolve
can_resolve-walk policy event old h = elim (path-cases (migration_path policy event.event_type)) [
  | inl e ↦ let h' : false ≡ true = rw (old, e) at h in absurd (cc h')
  | inr (step, path, e) ↦
      let h' : is_int (latest_version policy event.event_type)
            (walk (latest_version policy event.event_type) (step ∷ path) event.schema_version)
          ≡ true =
        rw (old, e) at h in
      rw e h'
]

resolved-again :
    (policy : SchemaPolicy) (registry : UpcasterRegistry) (event : EventRecord) (q : Payload)
    (v : Value)
    → is_int (latest_version policy event.event_type) v ≡ true
    → resolve policy registry (record event { payload = q; schema_version = v })
      ≡ ok (record event { payload = q; schema_version = v })
unfolding resolve is_current
resolved-again policy registry event q v there = rw there refl

-- An event that can be resolved over a path which ends at the latest version, each of whose steps
-- has an upcaster that raises on no payload, is resolved to the latest version of its type. Its
-- payload is what the registered upcasters of the steps of the path, taken in turn from the version of
-- the event, make of the payload of the event; nothing else differs; and resolving it again changes
-- nothing.
pub resolve-reaches :
    (policy : SchemaPolicy) (registry : UpcasterRegistry) (event : EventRecord)
    → EndsAt (latest_version policy event.event_type) (migration_path policy event.event_type)
    → IsRegistered registry event.event_type (migration_path policy event.event_type)
    → can_resolve policy event ≡ true
    → (q : Payload) × (v : Value) × (is_int (latest_version policy event.event_type) v ≡ true)
      × Carries registry event.event_type
          (latest_version policy event.event_type)
          (migration_path policy event.event_type)
          event.schema_version
          event.payload
          q
          v
      × (resolve policy registry event ≡ ok (record event { payload = q; schema_version = v }))
      × (resolve policy registry (record event { payload = q; schema_version = v })
          ≡ ok (record event { payload = q; schema_version = v }))
unfolding resolve is_current
resolve-reaches policy registry event ends registered resolvable =
    elim (Bool-cases (is_current policy event)) [
      | inl current ↦ (
        event.payload,
        event.schema_version,
        current,
        arrived (migration_path policy event.event_type) event.schema_version event.payload current,
        rw current refl,
        resolved-again policy registry event event.payload event.schema_version current,
      )
      | inr old ↦
          let (q, v, there, run, carried) =
            upcast-walk registry event.event_type (migration_path policy event.event_type)
              event.payload (latest_version policy event.event_type) event.schema_version ends
              registered (can_resolve-walk policy event old resolvable) in
          (
            q,
            v,
            there,
            carried,
            rw (old, resolvable, run) refl,
            resolved-again policy registry event q v there,
          )
    ]
