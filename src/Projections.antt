-- ===== src/Projections.antt =====
-- base.py and registry.py of rationalevault/projections: the registry of projection classes and the
-- order in which they are built. A class is a number; what it declares, and whether it derives from
-- `BaseProjection`, are parameters. The set of registered classes is a list without duplicates, in
-- any order that Python may iterate over it.
pub mod Membership
mod Adjacency
mod Waiting
mod Tests
pub mod Cycles
mod Loop
pub mod Kahn
mod Measure
mod Sorted
pub mod Order
pub mod Register
use rationale_vault.Prelude.{
  ℕ, zero, suc, String, Bool, true, false, not, Option, none, some, List, [], ◌∷◌, ◌++◌, Result, ok,
  raise, value_error, key_error, type_error, ◌>>=◌, ◌>>◌, keep, some_of, length, str_eq, ltb, ◌==◌,
  map, text_discrete, if◌then◌else◌, Exception, circular_dependency, missing_dependency,
  duplicate_projection, invalid_dependency_kind,
}
use Prim.Native.String.{compare as compare_text}
use Prim.Native.Nat.{Ordering}
use rationale_vault.Prelude.Dict
use rationale_vault.Prelude.Dict.{Dict}
use rationale_vault.Value.{ℤ, pos, negsuc}
use rationale_vault.Events.{for_each}

pub data ProjectionKind : Type 0 where
  base derived composite : ProjectionKind

-- A class, told apart from others as Python tells objects apart.
abbrev pub Class : Type 0
Class = ℕ

pub record SemVer : Type 0 where
  pub major : ℕ
  pub minor : ℕ
  pub patch : ℕ

pub record BaseProjection : Type 0 where
  pub projection_name : String
  pub version : SemVer
  pub projection_kind : ProjectionKind
  pub dependencies : List Class
  pub build_priority : ℕ

pub record ProjectionRegistry : Type 0 where
  pub projections : Dict String Class
  pub classes : List Class

abbrev pub no_projections : ProjectionRegistry
no_projections = record { projections = []; classes = [] }

-- `cls in classes`
abbrev pub mem : Class → List Class → Bool
mem cls classes = some_of (λ c. c == cls) classes

-- `d[k] = v` on a map from classes that holds every key
unfoldable pub set_at : {A : Type 0} → Class → A → (Class → A) → Class → A
set_at k v d c = if c == k then v else d c

-- `n - 1`
unfoldable pub decremented : ℤ → ℤ
decremented (pos zero) = negsuc 0
decremented (pos (suc n)) = pos n
decremented (negsuc n) = negsuc (suc n)

unfoldable pub is_zero : ℤ → Bool
is_zero (pos zero) = true
is_zero n = false

-- `any two names of the classes are the same`
unfoldable pub has_duplicates : List String → Bool
has_duplicates [] = false
has_duplicates (name ∷ names) =
    let rest = has_duplicates names in if some_of (str_eq name) names then true else rest

unfoldable pub get_class : ProjectionRegistry → Class → Result Class
get_class registry cls = if mem cls registry.classes then ok cls else raise key_error

unfoldable pub get_name : ProjectionRegistry → String → Result Class
get_name registry name = elim (Dict.get text_discrete name registry.projections) [
  | none ↦ raise key_error
  | some cls ↦ ok cls
]

-- `adj[dep].append(cls)`; `adj` has the registered classes as keys.
unfoldable pub link :
    List Class → Class → (Class → List Class) → Class → Result (Class → List Class)
link classes cls adj dep =
    if mem dep classes then ok (set_at dep (adj dep ++ cls ∷ []) adj) else raise key_error

-- The loop over the dependents of a class that was built.
unfoldable pub release : List Class → (Class → ℤ) → List Class → (Class → ℤ) × List Class
release [] in_degree ready = (in_degree, ready)
release (child ∷ children) in_degree ready =
    let n = decremented (in_degree child) in
    release children (set_at child n in_degree) (if is_zero n then ready ++ child ∷ [] else ready)

module _ (declared : Class → BaseProjection) where
  -- `is_subclass` says which classes derive from `BaseProjection`.
  unfoldable pub register_projection :
      (Class → Bool) → ProjectionRegistry → Class → Result ProjectionRegistry
  register_projection is_subclass registry cls =
      let name = (declared cls).projection_name in
      if not (is_subclass cls)
      then raise type_error
      else if str_eq name ""
      then raise value_error
      else if mem cls registry.classes
      then raise duplicate_projection
      else if Dict.has text_discrete name registry.projections
      then raise duplicate_projection
      else ok (record {
        projections = Dict.put text_discrete name cls registry.projections;
        classes = registry.classes ++ cls ∷ [];
      })

  unfoldable pub validate_names_and_classes : List Class → Result (Unit {0})
  validate_names_and_classes classes =
      if has_duplicates (map (λ c. (declared c).projection_name) classes)
      then raise duplicate_projection
      else ok tt

  unfoldable pub validate_dependencies : List Class → Result (Unit {0})
  validate_dependencies classes =
      for_each
        (λ _ cls.
          for_each (λ _ dep. if mem dep classes then ok tt else raise missing_dependency)
            (declared cls).dependencies tt)
        classes tt

  unfoldable pub is_composite : Class → Bool
  is_composite cls = elim (declared cls).projection_kind [ composite ↦ true | _ ↦ false ]

  unfoldable pub validate_kind : Class → Result (Unit {0})
  validate_kind cls = elim (declared cls).projection_kind [
    | base ↦ elim (declared cls).dependencies [
      | [] ↦ ok tt
      | dep ∷ deps ↦ raise invalid_dependency_kind
    ]
    | derived ↦
        for_each (λ _ dep. if is_composite dep then raise invalid_dependency_kind else ok tt)
          (declared cls).dependencies tt
    | composite ↦ ok tt
  ]

  unfoldable pub validate_kinds : List Class → Result (Unit {0})
  validate_kinds classes = for_each (λ _ cls. validate_kind cls) classes tt

  unfoldable pub build_adjacency : List Class → Result (Class → List Class)
  build_adjacency classes =
      for_each (λ adj cls. for_each (link classes cls) (declared cls).dependencies adj) classes
        (λ _. [])

  -- `(a.build_priority, a.projection_name) <= (b.build_priority, b.projection_name)`
  unfoldable pub goes_before : Class → Class → Bool
  goes_before a b =
      let p = (declared a).build_priority in
      let q = (declared b).build_priority in
      let names : Bool =
        elim (compare_text (declared a).projection_name (declared b).projection_name) [
          | Ordering.gt ↦ false
          | _ ↦ true
        ] in
      if ltb p q then true else if p == q then names else false

  unfoldable pub insert_ready : Class → List Class → List Class
  insert_ready cls [] = cls ∷ []
  insert_ready cls (c ∷ cs) =
      let rest = insert_ready cls cs in if goes_before cls c then cls ∷ c ∷ cs else c ∷ rest

  -- `ready.sort(key=…)`
  unfoldable pub sort_ready : List Class → List Class
  sort_ready [] = []
  sort_ready (cls ∷ ready) = insert_ready cls (sort_ready ready)

  -- `while ready:`
  unfoldable pub order_loop :
      ℕ → (Class → List Class) → (Class → ℤ) → List Class → List Class → Option (List Class)
  order_loop fuel adj in_degree [] order = some order
  order_loop zero adj in_degree (c ∷ ready) order = none
  order_loop (suc fuel) adj in_degree (c ∷ ready) order = elim (sort_ready (c ∷ ready)) [
    | [] ↦ some order
    | curr ∷ rest ↦
        let released = release (adj curr) in_degree rest in
        order_loop fuel adj released.0 released.1 (order ++ curr ∷ [])
  ]

  unfoldable pub initial_degree : Class → ℤ
  initial_degree cls = pos (length (declared cls).dependencies)

  -- `_compute_order`; the inner result is none where the fuel does not suffice.
  unfoldable pub compute_order : List Class → Result (Option (List Class))
  compute_order classes = do
    adj ← build_adjacency classes
    ok (
        order_loop (length classes) adj initial_degree
          (keep (λ c. is_zero (initial_degree c)) classes) [])
