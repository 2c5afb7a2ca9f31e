-- ===== src/Projections/Cycles/Sort.antt =====
-- What a topological sort returns (projections/registry.py).
use rationale_vault.Prelude.{
  ℕ, suc, ◌<◌, true, Bool-cases, some, List, [], ◌∷◌, ◌++◌, Result, Result-cases, ok, raise,
  missing_dependency, >>=-inv, ◌>>◌, ◌≡◌, sym, ap, ◌∙◌, inl, inr, ◌⊎◌, All, ◌==◌, if◌then◌else◌,
  arith, Exception,
}
use mathlib.Core.Path.{subst}
use rationale_vault.Events.{for_each}
use rationale_vault.Projections.{
  Class, BaseProjection, ProjectionRegistry, mem, validate_names_and_classes, validate_dependencies,
  validate_kinds, compute_order,
}
use rationale_vault.Projections.Membership.{IsDistinct, eq_of_test, test_self, mem-snoc}
use rationale_vault.Projections.Kahn.{IsBuilt}
use rationale_vault.Projections.Order.{mem-All, compute_order_complete}
use rationale_vault.Projections.Cycles.{
  Mark, validate_cycles, validate_declarations, validate_registry, topological_sort,
}
use rationale_vault.Projections.Cycles.Roots.{validate_cycles-IsBuilt}
use rationale_vault.Projections.Cycles.Accepts.{validate_cycles-accepts}

-- The place of a class in a list, the list's length where it is not there.
abbrev pub place : Class → List Class → ℕ
place c [] = 0
place c (x ∷ xs) = let later = suc (place c xs) in if x == c then 0 else later

module _ (declared : Class → BaseProjection) where
  -- In a list in which classes come after their dependencies, dependencies have an earlier place.
  place-IsBuilt :
      (before order : List Class) (c d : Class)
      → IsBuilt declared before order
      → mem c order ≡ true
      → mem d (declared c).dependencies ≡ true
      → (mem d before ≡ true) ⊎ (place d order < place c order)
  place-IsBuilt before [] c d built there dep = absurd (cc there)
  place-IsBuilt before (x ∷ order) c d built there dep = elim (Bool-cases (x == c)) [
    | inl e ↦
        let same = eq_of_test x c e in
        let dep' : mem d (declared x).dependencies ≡ true =
          subst (λ y. mem d (declared y).dependencies ≡ true) (sym same) dep in
        inl (mem-All _ d (declared x).dependencies built.0 dep')
    | inr e ↦
        let there' : mem c order ≡ true = rw e at there in
        elim (Bool-cases (x == d)) [
          | inl f ↦ inr (rw (e, f) (omega arith))
          | inr f ↦ elim (place-IsBuilt (before ++ x ∷ []) order c d built.1 there' dep) [
            | inl earlier ↦ elim (mem-snoc d x before earlier) [
              | inl same ↦
                  let f' : (x == d) ≡ true = subst (λ y. (x == y) ≡ true) same (test_self x) in
                  absurd (cc (f, f'))
              | inr old ↦ inl old
            ]
            | inr less ↦ inr (rw (e, f) (omega (arith, less)))
          ]
        ]
  ]

  deps-All :
      (classes deps : List Class)
      → for_each (λ _ dep. if mem dep classes then ok tt else raise missing_dependency) deps tt
        ≡ ok tt
      → All (λ dep. mem dep classes ≡ true) deps
  unfolding for_each
  deps-All classes [] h = tt
  deps-All classes (dep ∷ deps) h = elim (Bool-cases (mem dep classes)) [
    | inl e ↦
        let h' : for_each (λ _ dep. if mem dep classes then ok tt else raise missing_dependency)
              deps tt
            ≡ ok tt =
          rw e at h in
        (e, deps-All classes deps h')
    | inr e ↦ let h' : raise missing_dependency ≡ ok tt = rw e at h in absurd (cc h')
  ]

  validate_dependencies-All :
      (classes cs : List Class)
      → for_each
          (λ _ cls.
            for_each
              (λ _ dep. if mem dep classes then ok tt else raise missing_dependency)
              (declared cls).dependencies
              tt)
          cs
          tt
        ≡ ok tt
      → All (λ cls. All (λ dep. mem dep classes ≡ true) (declared cls).dependencies) cs
  unfolding for_each
  validate_dependencies-All classes [] h = tt
  validate_dependencies-All classes (c ∷ cs) h =
      let (u, first, rest) =
        >>=-inv
          (for_each (λ _ dep. if mem dep classes then ok tt else raise missing_dependency)
            (declared c).dependencies tt)
          (λ (u : Unit {0}).
            for_each
              (λ _ cls.
                for_each (λ _ dep. if mem dep classes then ok tt else raise missing_dependency)
                  (declared cls).dependencies tt)
              cs u)
          h in
      (deps-All classes (declared c).dependencies first, validate_dependencies-All classes cs rest)

  validate_declarations-All :
      (classes : List Class)
      → validate_declarations declared classes ≡ ok tt
      → All (λ cls. All (λ dep. mem dep classes ≡ true) (declared cls).dependencies) classes
  unfolding validate_declarations validate_dependencies
  validate_declarations-All classes h =
      let (_, _, h1) =
        >>=-inv (validate_names_and_classes declared classes)
          (λ (_ : Unit {0}).
            validate_dependencies declared classes >> validate_kinds declared classes)
          h in
      let (_, h2, _) =
        >>=-inv (validate_dependencies declared classes)
          (λ (_ : Unit {0}). validate_kinds declared classes) h1 in
      validate_dependencies-All classes classes h2

  -- The order has the classes, each once and after all its dependencies.
  abbrev pub IsOrder : List Class → List Class → Type 0
  IsOrder classes order =
      IsBuilt declared [] order × IsDistinct order × ((c : Class) → mem c order ≡ mem c classes)

  finished-IsOrder :
      (classes finished : List Class)
      → IsDistinct classes
      → All (λ cls. All (λ dep. mem dep classes ≡ true) (declared cls).dependencies) classes
      → IsBuilt declared [] finished
      → ((c : Class) → mem c classes ≡ true → mem c finished ≡ true)
      → (order : List Class) × (compute_order declared classes ≡ ok (some order))
        × IsOrder classes order
  finished-IsOrder classes finished distinct there built all_there =
      let lower : (c d : Class)
          → mem c classes ≡ true
          → mem d (declared c).dependencies ≡ true
          → place d finished < place c finished =
        λ c d at dep. elim (place-IsBuilt [] finished c d built (all_there c at) dep) [
          | inl none_there ↦ absurd (cc none_there)
          | inr less ↦ less
        ] in
      let (order, computed, after, once, same) =
        compute_order_complete declared classes (λ c. place c finished) distinct there lower in
      (order, computed, (after, once, same))

  validate_registry-raise :
      (registry : ProjectionRegistry) (e : Exception)
      → validate_declarations declared registry.classes ≡ raise e
      → validate_registry declared registry ≡ some (raise e)
  unfolding validate_registry
  validate_registry-raise registry e declares = rw (declares, validate_registry)

  validate_registry-cycles :
      (registry : ProjectionRegistry) (u : Unit {0}) (e : Exception)
      → validate_declarations declared registry.classes ≡ ok u
      → validate_cycles declared registry.classes ≡ some (raise e)
      → validate_registry declared registry ≡ some (raise e)
  unfolding validate_registry
  validate_registry-cycles registry u e declares searched =
      rw (declares, searched, validate_registry)

  validate_registry-ok :
      (registry : ProjectionRegistry) (u : Unit {0}) (marks : Class → Mark)
      → validate_declarations declared registry.classes ≡ ok u
      → validate_cycles declared registry.classes ≡ some (ok marks)
      → validate_registry declared registry ≡ some (ok tt)
  unfolding validate_registry
  validate_registry-ok registry u marks declares searched =
      rw (declares, searched, validate_registry)

  topological_sort-raise :
      (registry : ProjectionRegistry) (e : Exception)
      → validate_registry declared registry ≡ some (raise e)
      → topological_sort declared registry ≡ some (raise e)
  unfolding topological_sort
  topological_sort-raise registry e checked = rw (checked, topological_sort)

  topological_sort-ok :
      (registry : ProjectionRegistry) (order : List Class)
      → validate_registry declared registry ≡ some (ok tt)
      → compute_order declared registry.classes ≡ ok (some order)
      → topological_sort declared registry ≡ some (ok order)
  unfolding topological_sort
  topological_sort-ok registry order checked computed = rw (checked, computed, topological_sort)

-- A topological sort of a registry without duplicates always ends, with an order or an exception. An
-- order that it returns has the registered classes, each once and after all its dependencies.
pub topological_sort-IsBuilt :
    (declared : Class → BaseProjection) (registry : ProjectionRegistry)
    → IsDistinct registry.classes
    → (result : Result (List Class)) × (topological_sort declared registry ≡ some result)
      × ((order : List Class) → result ≡ ok order → IsOrder declared registry.classes order)
topological_sort-IsBuilt declared registry distinct =
    let classes = registry.classes in
    elim (Result-cases (validate_declarations declared classes)) [
      | inr (e, h) ↦ (
        raise e,
        topological_sort-raise declared registry e (validate_registry-raise declared registry e h),
        (λ order none_there. absurd (cc none_there)),
      )
      | inl (u, h) ↦
          let there = validate_declarations-All declared classes h in
          let (searched, run, good) = validate_cycles-IsBuilt declared classes in
          elim (Result-cases searched) [
            | inr (e, f) ↦
                let run' : validate_cycles declared classes ≡ some (raise e) = run ∙ ap some f in
                (
                  raise e,
                  topological_sort-raise declared registry e
                      (validate_registry-cycles declared registry u e h run'),
                  (λ order none_there. absurd (cc none_there)),
                )
            | inl (marks, f) ↦
                let run' : validate_cycles declared classes ≡ some (ok marks) = run ∙ ap some f in
                let (finished, built, all_there) = good marks f in
                let (order, computed, ordered) =
                  finished-IsOrder declared classes finished distinct there built all_there in
                (
                  ok order,
                  topological_sort-ok declared registry order
                      (validate_registry-ok declared registry u marks h run') computed,
                  (λ order' same.
                      let e : order ≡ order' = cc same in
                      subst (IsOrder declared classes) e ordered),
                )
          ]
    ]

-- Where a ranking gives each class of a registry without duplicates a higher rank than its
-- dependencies, and the checks of names, dependencies and kinds pass, a topological sort returns an
-- order, and the order has the registered classes, each once and after all its dependencies.
pub topological_sort-returns :
    (declared : Class → BaseProjection) (registry : ProjectionRegistry) (rank : Class → ℕ)
    → IsDistinct registry.classes
    → validate_declarations declared registry.classes ≡ ok tt
    → ((c d : Class)
        → mem c registry.classes ≡ true
        → mem d (declared c).dependencies ≡ true
        → rank d < rank c)
    → (order : List Class) × (topological_sort declared registry ≡ some (ok order))
      × IsOrder declared registry.classes order
topological_sort-returns declared registry rank distinct declares lower =
    let classes = registry.classes in
    let there = validate_declarations-All declared classes declares in
    let (order, computed, after, once, same) =
      compute_order_complete declared classes rank distinct there lower in
    let (searched, run, _) = validate_cycles-IsBuilt declared classes in
    elim (Result-cases searched) [
      | inr (e, f) ↦
          absurd (validate_cycles-accepts declared classes rank there lower e (run ∙ ap some f))
      | inl (marks, f) ↦ (
        order,
        topological_sort-ok declared registry order
            (validate_registry-ok declared registry tt marks declares (run ∙ ap some f)) computed,
        (after, once, same),
      )
    ]
