-- ===== src/Projections/Cycles.antt =====
-- registry.py of rationalevault/projections: the search for cycles, and `topological_sort`, which
-- orders a registry that passes all its checks. The stack has its top first, and the children of a
-- class on it stand in the order in which `pop` takes them.
mod Search
mod Visits
mod Accepts
mod Roots
mod Rounds
pub mod Sort
use rationale_vault.Prelude.{
  ℕ, zero, suc, ◌+◌, Bool, true, false, Option, none, some, List, [], ◌∷◌, ◌++◌, Result, ok, raise,
  key_error, circular_dependency, length, if◌then◌else◌, ◌>>◌, ◌>>=◌,
}
use rationale_vault.Projections.{
  Class, BaseProjection, ProjectionRegistry, mem, set_at, validate_names_and_classes,
  validate_dependencies, validate_kinds, compute_order,
}

pub data Mark : Type 0 where
  unvisited visiting visited : Mark

abbrev pub Stack : Type 0
Stack = List (Class × List Class)

-- The items in the order in which `pop` takes them, from the last one on.
unfoldable pub from_last : List Class → List Class
from_last [] = []
from_last (c ∷ cs) = from_last cs ++ c ∷ []

module _ (declared : Class → BaseProjection) where
  -- `while stack:`; none where the fuel does not suffice.
  unfoldable pub cycle_loop :
      List Class → ℕ → (Class → Mark) → Stack → Option (Result (Class → Mark))
  cycle_loop classes fuel marks [] = some (ok marks)
  cycle_loop classes zero marks (top ∷ stack) = none
  cycle_loop classes (suc fuel) marks ((curr, []) ∷ stack) =
      cycle_loop classes fuel (set_at curr visited marks) stack
  cycle_loop classes (suc fuel) marks ((curr, next ∷ children) ∷ stack) =
      let passed = cycle_loop classes fuel marks ((curr, children) ∷ stack) in
      let pushed =
        cycle_loop classes fuel (set_at next visiting marks)
          ((next, from_last (declared next).dependencies) ∷ (curr, children) ∷ stack) in
      if mem next classes
      then elim (marks next) [
        | visiting ↦ some (raise circular_dependency)
        | unvisited ↦ pushed
        | visited ↦ passed
      ]
      else some (raise key_error)

  -- `for root in self._classes:`
  unfoldable pub visit_roots :
      List Class → ℕ → List Class → (Class → Mark) → Option (Result (Class → Mark))
  visit_roots classes fuel [] marks = some (ok marks)
  visit_roots classes fuel (root ∷ roots) marks = elim (marks root) [
    | unvisited ↦
        elim (cycle_loop classes fuel (set_at root visiting marks)
          ((root, from_last (declared root).dependencies) ∷ [])) [
            | none ↦ none
            | some (raise e) ↦ some (raise e)
            | some (ok marks') ↦ visit_roots classes fuel roots marks'
          ]
    | visiting ↦ visit_roots classes fuel roots marks
    | visited ↦ visit_roots classes fuel roots marks
  ]

  -- The fuel: one round for each class and one for each of its dependencies.
  unfoldable pub rounds : List Class → ℕ
  rounds [] = 0
  rounds (c ∷ classes) = suc (length (declared c).dependencies) + rounds classes

  unfoldable pub validate_cycles : List Class → Option (Result (Class → Mark))
  validate_cycles classes = visit_roots classes (rounds classes) classes (λ _. unvisited)

  -- The checks before the search for cycles.
  unfoldable pub validate_declarations : List Class → Result (Unit {0})
  validate_declarations classes =
      validate_names_and_classes declared classes
      >> (validate_dependencies declared classes >> validate_kinds declared classes)

  unfoldable pub validate_registry : ProjectionRegistry → Option (Result (Unit {0}))
  validate_registry registry = elim (validate_declarations registry.classes) [
    | raise e ↦ some (raise e)
    | ok _ ↦ elim (validate_cycles registry.classes) [
      | none ↦ none
      | some (raise e) ↦ some (raise e)
      | some (ok _) ↦ some (ok tt)
    ]
  ]

  unfoldable pub topological_sort : ProjectionRegistry → Option (Result (List Class))
  topological_sort registry = elim (validate_registry registry) [
    | none ↦ none
    | some (raise e) ↦ some (raise e)
    | some (ok _) ↦ elim (compute_order declared registry.classes) [
      | raise e ↦ some (raise e)
      | ok none ↦ none
      | ok (some order) ↦ some (ok order)
    ]
  ]
