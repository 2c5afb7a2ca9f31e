-- ===== src/Projections/Tests.antt =====
-- Three classes: a base projection, one derived from it, and one derived from both.
use rationale_vault.Prelude.{
  ℕ, zero, suc, ◌<◌, Bool, true, false, none, str_eq, inl, inr, ok, raise, Result, some, List, [],
  ◌∷◌, ◌≡◌, refl, arith, All, circular_dependency, text_discrete, ℕ_discrete,
}
use mathlib.Core.Path.{subst}
use rationale_vault.Prelude.Dict
use rationale_vault.Events.{for_each}
use rationale_vault.Projections.{
  Class, SemVer, BaseProjection, ProjectionRegistry, base, derived, composite, mem, compute_order,
  set_at, decremented, is_zero, has_duplicates, validate_names_and_classes, validate_dependencies,
  is_composite, validate_kind, validate_kinds, link, release, build_adjacency, goes_before,
  insert_ready, sort_ready, order_loop, initial_degree, register_projection,
}
use rationale_vault.Projections.Cycles.{
  from_last, cycle_loop, visit_roots, rounds, validate_cycles, validate_declarations,
  validate_registry, topological_sort,
}
use rationale_vault.Projections.Cycles.Sort.{
  IsOrder, topological_sort-IsBuilt, topological_sort-returns,
}
use rationale_vault.Projections.Register.{
  IsRegistry, IsCatalogue, IsOutcome, register_projection-IsRegistry,
}
use rationale_vault.Projections.Kahn.{IsBuilt}
use rationale_vault.Projections.Membership.{IsDistinct, mem-cons}
use rationale_vault.Projections.Order.{mem-All, compute_order-IsBuilt, compute_order_complete}

abbrev first_version : SemVer
first_version = record { major = 1; minor = 0; patch = 0 }

abbrev declared : Class → BaseProjection
declared zero = record {
  projection_name = "Workspace";
  version = first_version;
  projection_kind = base;
  dependencies = [];
  build_priority = 10;
}
declared (suc zero) = record {
  projection_name = "Graph";
  version = first_version;
  projection_kind = derived;
  dependencies = 0 ∷ [];
  build_priority = 30;
}
declared (suc (suc _)) = record {
  projection_name = "Analytics";
  version = first_version;
  projection_kind = derived;
  dependencies = 0 ∷ 1 ∷ [];
  build_priority = 20;
}

abbrev classes : List Class
classes = 2 ∷ 1 ∷ 0 ∷ []

abbrev rank : Class → ℕ
rank zero = 0
rank (suc zero) = 1
rank (suc (suc _)) = 2

lower-All : (c : Class) → All (λ d. rank d < rank c) (declared c).dependencies
lower-All zero = tt
lower-All (suc zero) = (omega arith, tt)
lower-All (suc (suc c)) = (omega arith, (omega arith, tt))

lower :
    (c d : Class) → mem c classes ≡ true → mem d (declared c).dependencies ≡ true → rank d < rank c
lower c d _ h = mem-All (λ x. rank x < rank c) d (declared c).dependencies (lower-All c) h

compute_order-IsBuilt_example :
    (order : List Class) × (compute_order declared classes ≡ ok (some order))
    × IsBuilt declared [] order
    × IsDistinct order
    × ((c : Class) → mem c order ≡ true → mem c classes ≡ true)
compute_order-IsBuilt_example =
    compute_order-IsBuilt declared classes (refl, (refl, (refl, tt)))
      ((refl, (refl, tt)), ((refl, tt), (tt, tt)))

compute_order_complete_example :
    (order : List Class) × (compute_order declared classes ≡ ok (some order))
    × IsBuilt declared [] order
    × IsDistinct order
    × ((c : Class) → mem c order ≡ mem c classes)
compute_order_complete_example =
    compute_order_complete declared classes rank (refl, (refl, (refl, tt)))
      ((refl, (refl, tt)), ((refl, tt), (tt, tt))) lower

abbrev registry : ProjectionRegistry
registry = record {
  projections = ("Analytics", 2) ∷ ("Graph", 1) ∷ ("Workspace", 0) ∷ [];
  classes = classes;
}

topological_sort-IsBuilt_example :
    (result : Result (List Class)) × (topological_sort declared registry ≡ some result)
    × ((order : List Class) → result ≡ ok order → IsOrder declared classes order)
topological_sort-IsBuilt_example =
    topological_sort-IsBuilt declared registry (refl, (refl, (refl, tt)))

program : Unit {0}
unfolding Dict.get Dict.has Dict.put text_discrete ℕ_discrete set_at decremented is_zero
    has_duplicates validate_names_and_classes validate_dependencies is_composite validate_kind
    validate_kinds link release build_adjacency goes_before insert_ready sort_ready order_loop
    initial_degree compute_order from_last cycle_loop visit_roots rounds validate_cycles
    validate_declarations validate_registry topological_sort register_projection for_each
program = tt

declares : validate_declarations declared registry.classes ≡ ok tt
unfolding program
declares = refl

topological_sort-returns_example :
    (order : List Class) × (topological_sort declared registry ≡ some (ok order))
    × IsOrder declared classes order
topological_sort-returns_example =
    topological_sort-returns declared registry rank (refl, (refl, (refl, tt))) declares lower

-- The registry is sorted, and one with a cycle is refused.
sorted : topological_sort declared registry ≡ some (ok (0 ∷ 1 ∷ 2 ∷ []))
unfolding program
sorted = refl

abbrev circular : Class → BaseProjection
circular c = record (declared c) { projection_kind = composite; dependencies = suc zero ∷ [] }

refused :
    topological_sort circular (record { projections = []; classes = 1 ∷ [] })
    ≡ some (raise circular_dependency)
unfolding program
refused = refl

named : IsRegistry declared (record { projections = ("Workspace", 0) ∷ []; classes = 0 ∷ [] })
unfolding program
named = (
  (refl, tt),
  (λ c h. elim (mem-cons c 0 [] h) [
    | inl same ↦
        subst
          (λ x.
            Dict.get text_discrete (declared x).projection_name (("Workspace", 0) ∷ []) ≡ some x)
          same refl
    | inr none_there ↦ absurd (cc none_there)
  ]),
)

abbrev workspace_only : ProjectionRegistry
workspace_only = record { projections = ("Workspace", 0) ∷ []; classes = 0 ∷ [] }

-- Here every class derives from `BaseProjection`.
abbrev all_derive : Class → Bool
all_derive c = true

catalogued : IsCatalogue declared all_derive workspace_only
unfolding program
catalogued = (
  named,
  (λ c h. elim (mem-cons c 0 [] h) [
    | inl same ↦
        subst (λ x. (all_derive x ≡ true) × (str_eq (declared x).projection_name "" ≡ false)) same
          (refl, refl)
    | inr none_there ↦ absurd (cc none_there)
  ]),
  (λ n c h. elim (text_discrete "Workspace" n) [
    | yes e ↦
        let first : Dict.get text_discrete n workspace_only.projections ≡ some zero =
          subst (λ k. Dict.get text_discrete k workspace_only.projections ≡ some 0) e refl in
        let same : 0 ≡ c = cc (first, h) in
        subst (λ x. (mem x (0 ∷ []) ≡ true) × ((declared x).projection_name ≡ n)) same (refl, e)
    | no ne ↦
        let missing : Dict.get text_discrete n workspace_only.projections ≡ none =
          Dict.get-put_ne text_discrete "Workspace" n 0 [] ne in
        absurd (cc (missing, h))
  ]),
)

register_projection-IsRegistry_example :
    IsOutcome declared all_derive workspace_only 1
      (register_projection declared all_derive workspace_only 1)
register_projection-IsRegistry_example =
    register_projection-IsRegistry declared all_derive workspace_only 1 catalogued
