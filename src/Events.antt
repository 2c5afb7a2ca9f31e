-- ===== src/Events.antt =====
-- schema/events.py: the event types that the modelled code tells apart, and event records. Any
-- other member of the enumeration is `other` with its value.
use mathlib.Core.Path.{subst}
use rationale_vault.Prelude.{
  ℕ, String, Option, none, some, List, Result, ok, ◌>>=◌, [], ◌∷◌, text_discrete, ◌++◌, ◌≡◌, refl,
  Result-cases, >>=-inv, inl, inr, All,
}
use rationale_vault.Value.{Value, Payload, null, text}

pub data EventType : Type 0 where
  project_created project_goal_set project_focus_changed : EventType
  task_created task_mutated task_completed task_progress_noted : EventType
  decision_proposed decision_accepted decision_superseded : EventType
  open_question_raised open_question_resolved : EventType
  skill_executed : EventType
  other : String → EventType

unfoldable pub EventType_discrete : Discrete EventType
EventType_discrete = hlevel text_discrete

pub record EventMetadata : Type 0 where
  pub actor : String
  pub source : String
  pub correlation_id : String
  pub session_id : String

-- `recorded_at` is the time's text, `datetime.isoformat()`.
pub record EventRecord : Type 0 where
  pub event_sequence : ℕ
  pub id : String
  pub project_id : String
  pub stream_id : String
  pub version : ℕ
  pub event_type : EventType
  pub metadata : EventMetadata
  pub payload : Payload
  pub parent_id : Option String
  pub recorded_at : Option String
  pub schema_version : Value

-- `event.recorded_at.isoformat() if event.recorded_at else None`
unfoldable pub recorded : EventRecord → Value
recorded event = elim event.recorded_at [ none ↦ null | some t ↦ text t ]

-- `for x in xs:` over a state, where a round may raise.
unfoldable pub for_each {ℓ} : {A S : Type ℓ} → (S → A → Result S) → List A → S → Result S
for_each step [] s = ok s
for_each step (x ∷ xs) s = do s' ← step s x; for_each step xs s'

-- A loop over two lists one after the other goes on from the state that the first leaves.
pub for_each-append {ℓ} :
    {A S : Type ℓ} (step : S → A → Result S) (xs ys : List A) (s : S)
    → for_each step (xs ++ ys) s ≡ (for_each step xs s >>= for_each step ys)
unfolding for_each
for_each-append step [] ys s = refl
for_each-append step (x ∷ xs) ys s = elim (Result-cases (step s x)) [
  | inl (s', h) ↦ rw h (for_each-append step xs ys s')
  | inr (e, h) ↦ rw h
]

-- What every round keeps, the loop keeps.
pub for_each-keeps {ℓ} :
    {A S : Type ℓ} (P : S → Type ℓ) (step : S → A → Result S)
    → ((s : S) (x : A) (s' : S) → step s x ≡ ok s' → P s → P s')
    → (xs : List A) (s s' : S) → for_each step xs s ≡ ok s'
    → P s
    → P s'
unfolding for_each
for_each-keeps P step keeps [] s s' h p = subst P (let e : s ≡ s' = cc h in e) p
for_each-keeps P step keeps (x ∷ xs) s s' h p =
    let (s1, h1, rest) = >>=-inv (step s x) (for_each step xs) h in
    for_each-keeps P step keeps xs s1 s' rest (keeps s x s1 h1 p)

-- What every round over an element with a property keeps, the loop over such elements keeps.
pub for_each-keeps_on {ℓ} :
    {A S : Type ℓ} (P : S → Type ℓ) (Q : A → Type ℓ) (step : S → A → Result S)
    → ((s : S) (x : A) (s' : S) → Q x → step s x ≡ ok s' → P s → P s')
    → (xs : List A) (s s' : S) → All Q xs
    → for_each step xs s ≡ ok s'
    → P s
    → P s'
unfolding for_each
for_each-keeps_on P Q step keeps [] s s' all h p = subst P (let e : s ≡ s' = cc h in e) p
for_each-keeps_on P Q step keeps (x ∷ xs) s s' all h p =
    let (s1, h1, rest) = >>=-inv (step s x) (for_each step xs) h in
    for_each-keeps_on P Q step keeps xs s1 s' all.1 rest (keeps s x s1 all.0 h1 p)
