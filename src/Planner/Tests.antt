-- ===== src/Planner/Tests.antt =====
-- A base projection whose input changed, and one derived from it.
use rationale_vault.Prelude.{
  ℕ, zero, suc, String, inl, inr, some, [], ◌∷◌, ok, ◌≡◌, refl, text_discrete, ℕ_discrete, false,
  true,
}
use mathlib.Core.Path.{subst}
use rationale_vault.Prelude.Dict
use rationale_vault.Prelude.Dict.{Dict}
use rationale_vault.Events.{for_each}
use rationale_vault.Projections.{
  Class, SemVer, BaseProjection, ProjectionRegistry, base, derived, compute_order, set_at,
  decremented, is_zero, has_duplicates, validate_names_and_classes, validate_dependencies,
  is_composite, validate_kind, validate_kinds, link, release, build_adjacency, goes_before,
  insert_ready, sort_ready, order_loop, initial_degree, mem,
}
use rationale_vault.Projections.Cycles.{
  from_last, cycle_loop, visit_roots, rounds, validate_cycles, validate_declarations,
  validate_registry, topological_sort,
}
use rationale_vault.Projections.Membership.{mem-cons}
use rationale_vault.Projections.Register.{IsRegistry}
use rationale_vault.Planner.{
  SemVer_discrete, CacheKey_discrete, ProjectionCache, get_entry, is_named, RebuildPlan,
  dependency_changed, fingerprint_mismatch, item_before, insert_item, sort_items, join_items,
  mismatch, dependency_fingerprints, dirty_reason, version_text, compute_composite_fingerprint,
  fingerprint_of, plan_round, plan,
}
use rationale_vault.Planner.Verdicts.{IsJudged}
use rationale_vault.Planner.Stale.{plan-is_stale}
use rationale_vault.Planner.Fresh.{IsCached, plan-IsCached}

abbrev first_version : SemVer
first_version = record { major = 1; minor = 0; patch = 0 }

abbrev declared : Class → BaseProjection
declared zero = record {
  projection_name = "Workspace";
  version = first_version;
  projection_kind = base;
  dependencies = [];
  build_priority = 10;
}
declared (suc _) = record {
  projection_name = "Graph";
  version = first_version;
  projection_kind = derived;
  dependencies = 0 ∷ [];
  build_priority = 30;
}

abbrev registry : ProjectionRegistry
registry = record { projections = ("Workspace", 0) ∷ ("Graph", 1) ∷ []; classes = 0 ∷ 1 ∷ [] }

abbrev cache : ProjectionCache (Unit {0})
cache =
    (
      ("p", "Workspace", first_version),
      record { compiled_projection = tt; fingerprint = "w1"; version = first_version },
    )
    ∷ []

abbrev sha256 : String → String
sha256 s = s

abbrev decimal : ℕ → String
decimal n = "1"

abbrev current : Dict String String
current = ("Workspace", "w2") ∷ []

program : Unit {0}
unfolding Dict.get Dict.has Dict.put text_discrete ℕ_discrete set_at decremented is_zero
    has_duplicates validate_names_and_classes validate_dependencies is_composite validate_kind
    validate_kinds link release build_adjacency goes_before insert_ready sort_ready order_loop
    initial_degree compute_order from_last cycle_loop visit_roots rounds validate_cycles
    validate_declarations validate_registry topological_sort for_each SemVer_discrete
    CacheKey_discrete get_entry item_before insert_item sort_items join_items mismatch
    dependency_fingerprints dirty_reason version_text compute_composite_fingerprint fingerprint_of
    plan_round plan
program = tt

abbrev rebuild : RebuildPlan
rebuild = record {
  dirty_nodes = "Graph" ∷ "Workspace" ∷ [];
  ordered_nodes = "Workspace" ∷ "Graph" ∷ [];
  unchanged_nodes = [];
  reasons =
      ("Workspace", fingerprint_mismatch "w1" "w2")
      ∷ ("Graph", dependency_changed ("Workspace" ∷ []))
      ∷ [];
  metrics = record { cache_hits = 0; cache_misses = 2; dirty_count = 2; scheduled_count = 2 };
  resolved_fingerprints = ("Workspace", "w2") ∷ ("Graph", "composite|1.1.1|Workspace:w2|") ∷ [];
}

planned : plan sha256 decimal declared "p" current cache registry ≡ some (ok rebuild)
unfolding program
planned = refl

named : IsRegistry declared registry
unfolding program
named = (
  (refl, (refl, tt)),
  (λ c h. elim (mem-cons c 0 (1 ∷ []) h) [
    | inl same ↦
        subst
          (λ x. Dict.get text_discrete (declared x).projection_name registry.projections ≡ some x)
          same refl
    | inr more ↦ elim (mem-cons c 1 [] more) [
      | inl same ↦
          subst
            (λ x. Dict.get text_discrete (declared x).projection_name registry.projections ≡ some x)
            same refl
      | inr none_there ↦ absurd (cc none_there)
    ]
  ]),
)

plan-is_stale_example :
    IsJudged declared "p" cache rebuild.resolved_fingerprints rebuild.dirty_nodes 1
plan-is_stale_example =
    plan-is_stale sha256 decimal declared "p" current cache registry rebuild named planned 1 refl

abbrev fresh_cache : ProjectionCache (Unit {0})
fresh_cache =
    (
      ("p", "Workspace", first_version),
      record { compiled_projection = tt; fingerprint = "w2"; version = first_version },
    )
    ∷ (
      ("p", "Graph", first_version),
      record {
        compiled_projection = tt;
        fingerprint = "composite|1.1.1|Workspace:w2|";
        version = first_version;
      },
    )
    ∷ []

abbrev idle : RebuildPlan
idle = record {
  dirty_nodes = [];
  ordered_nodes = [];
  unchanged_nodes = "Workspace" ∷ "Graph" ∷ [];
  reasons = [];
  metrics = record { cache_hits = 2; cache_misses = 0; dirty_count = 0; scheduled_count = 0 };
  resolved_fingerprints = ("Workspace", "w2") ∷ ("Graph", "composite|1.1.1|Workspace:w2|") ∷ [];
}

planned_idle : plan sha256 decimal declared "p" current fresh_cache registry ≡ some (ok idle)
unfolding program
planned_idle = refl

cached :
    (c : Class)
    → mem c registry.classes ≡ true
    → IsCached declared "p" fresh_cache idle.resolved_fingerprints c
unfolding program
cached c h = elim (mem-cons c 0 (1 ∷ []) h) [
  | inl same ↦ subst (IsCached declared "p" fresh_cache idle.resolved_fingerprints) same (
    record { compiled_projection = tt; fingerprint = "w2"; version = first_version },
    refl,
    refl,
    refl,
  )
  | inr more ↦ elim (mem-cons c 1 [] more) [
    | inl same ↦ subst (IsCached declared "p" fresh_cache idle.resolved_fingerprints) same (
      record {
        compiled_projection = tt;
        fingerprint = "composite|1.1.1|Workspace:w2|";
        version = first_version;
      },
      refl,
      refl,
      refl,
    )
    | inr none_there ↦ absurd (cc none_there)
  ]
]

plan-IsCached_example : is_named "Graph" idle.dirty_nodes ≡ false
plan-IsCached_example =
    plan-IsCached sha256 decimal declared "p" current fresh_cache registry idle named planned_idle
      cached 1 refl
