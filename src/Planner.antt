-- ===== src/Planner.antt =====
-- planner.py and cache.py of rationalevault/projections, and the composite fingerprint of
-- fingerprint.py: which projections are to be rebuilt. What a cache entry keeps beside its fingerprint
-- and version is a parameter, as are SHA-256 and the decimal text of a number. A reason is kept as
-- what its text is made of, and a set is the list of what was added to it.
pub mod Verdicts
mod Rounds
mod Loop
pub mod Stale
pub mod Fresh
mod Tests
use rationale_vault.Prelude.{
  ℕ, String, Bool, true, false, Option, none, some, List, [], ◌∷◌, ◌++◌, map, Result, ok, raise,
  value_error, key_error, ◌>>=◌, keep, some_of, length, str_eq, text_discrete, ℕ_discrete,
  if◌then◌else◌,
}
use mathlib.Core.Logic.{ite}
use mathlib.Core.Option.{get_or}
use Prim.Native.String.{◌++◌ as append_text, compare as compare_text}
use Prim.Native.Nat.{Ordering}
use rationale_vault.Prelude.Dict
use rationale_vault.Prelude.Dict.{Dict}
use rationale_vault.Events.{for_each}
use rationale_vault.Projections.{Class, SemVer, BaseProjection, ProjectionRegistry, base}
use rationale_vault.Projections.Cycles.{topological_sort}

unfoldable pub SemVer_discrete : Discrete SemVer
SemVer_discrete = hlevel ℕ_discrete

-- The project's id, the projection's name and its version.
abbrev pub CacheKey : Type 0
CacheKey = String × String × SemVer

unfoldable pub CacheKey_discrete : Discrete CacheKey
CacheKey_discrete = hlevel (text_discrete, SemVer_discrete)

pub record CacheEntry (Compiled : Type 0) : Type 0 where
  pub compiled_projection : Compiled
  pub fingerprint : String
  pub version : SemVer

abbrev pub ProjectionCache : Type 0 → Type 0
ProjectionCache Compiled = Dict CacheKey (CacheEntry Compiled)

module _ {Compiled : Type 0} where
  unfoldable pub get_entry : ProjectionCache Compiled → CacheKey → Option (CacheEntry Compiled)
  get_entry cache key = Dict.get CacheKey_discrete key cache

  unfoldable pub set_entry :
      ProjectionCache Compiled → CacheKey → CacheEntry Compiled → ProjectionCache Compiled
  set_entry cache key entry = Dict.put CacheKey_discrete key entry cache

  unfoldable pub invalidate :
      ProjectionCache Compiled → String → String → SemVer → ProjectionCache Compiled
  invalidate cache project_id projection_name version =
      Dict.without CacheKey_discrete (project_id, projection_name, version) cache

  abbrev pub clear : ProjectionCache Compiled → ProjectionCache Compiled
  clear cache = []

pub data Reason : Type 0 where
  dependency_changed : List String → Reason
  missing_entry : Reason
  fingerprint_mismatch : String → String → Reason
  version_mismatch : SemVer → SemVer → Reason

pub record RebuildMetrics : Type 0 where
  pub cache_hits : ℕ
  pub cache_misses : ℕ
  pub dirty_count : ℕ
  pub scheduled_count : ℕ

pub record RebuildPlan : Type 0 where
  pub dirty_nodes : List String
  pub ordered_nodes : List String
  pub unchanged_nodes : List String
  pub reasons : Dict String Reason
  pub metrics : RebuildMetrics
  pub resolved_fingerprints : Dict String String

-- The variables that the loop of `plan` changes.
pub record Planning : Type 0 where
  pub resolved_fingerprints : Dict String String
  pub dirty_nodes : List String
  pub reasons : Dict String Reason
  pub unchanged_nodes : List String
  pub ordered_nodes : List String

abbrev pub no_planning : Planning
no_planning = record {
  resolved_fingerprints = [];
  dirty_nodes = [];
  reasons = [];
  unchanged_nodes = [];
  ordered_nodes = [];
}

-- `name in names`
abbrev pub is_named : String → List String → Bool
is_named name names = some_of (λ n. str_eq n name) names

-- `a <= b` on items of a dict
unfoldable pub item_before : String × String → String × String → Bool
item_before a b = elim (compare_text a.0 b.0) [
  | Ordering.lt ↦ true
  | Ordering.gt ↦ false
  | Ordering.eq ↦ elim (compare_text a.1 b.1) [ Ordering.gt ↦ false | _ ↦ true ]
]

unfoldable pub insert_item : String × String → Dict String String → Dict String String
insert_item item [] = item ∷ []
insert_item item (i ∷ items) =
    let rest = insert_item item items in if item_before item i then item ∷ i ∷ items else i ∷ rest

-- `sorted(d.items())`
unfoldable pub sort_items : Dict String String → Dict String String
sort_items [] = []
sort_items (item ∷ items) = insert_item item (sort_items items)

-- `",".join(f"{name}:{fp}" for name, fp in items)`
unfoldable pub join_items : Dict String String → String
join_items [] = ""
join_items ((name, fp) ∷ []) = append_text name (append_text ":" fp)
join_items ((name, fp) ∷ item ∷ items) =
    append_text name
      (append_text ":" (append_text fp (append_text "," (join_items (item ∷ items)))))

unfoldable pub mismatch :
    {Compiled : Type 0} → SemVer → String → CacheEntry Compiled → Option Reason
mismatch version fp entry =
    if str_eq entry.fingerprint fp
    then ite (SemVer_discrete entry.version version) none
        (some (version_mismatch entry.version version))
    else some (fingerprint_mismatch entry.fingerprint fp)

-- The state after a class whose fingerprint and verdict are given.
abbrev pub decided : Planning → String → String → Option Reason → Planning
decided p name fp none = record p {
  resolved_fingerprints = Dict.put text_discrete name fp p.resolved_fingerprints;
  unchanged_nodes = p.unchanged_nodes ++ name ∷ [];
}
decided p name fp (some reason) = record p {
  resolved_fingerprints = Dict.put text_discrete name fp p.resolved_fingerprints;
  dirty_nodes = name ∷ p.dirty_nodes;
  reasons = Dict.put text_discrete name reason p.reasons;
  ordered_nodes = p.ordered_nodes ++ name ∷ [];
}

abbrev pub plan_of : Planning → RebuildPlan
plan_of p = record {
  dirty_nodes = p.dirty_nodes;
  ordered_nodes = p.ordered_nodes;
  unchanged_nodes = p.unchanged_nodes;
  reasons = p.reasons;
  metrics = record {
    cache_hits = length p.unchanged_nodes;
    cache_misses = length p.ordered_nodes;
    dirty_count = length p.dirty_nodes;
    scheduled_count = length p.ordered_nodes;
  };
  resolved_fingerprints = p.resolved_fingerprints;
}

module _ (declared : Class → BaseProjection) where
  -- `{dep.projection_name: resolved_fingerprints[dep.projection_name] for dep in deps}`
  unfoldable pub dependency_fingerprints :
      Dict String String → List Class → Dict String String → Result (Dict String String)
  dependency_fingerprints resolved [] found = ok found
  dependency_fingerprints resolved (dep ∷ deps) found =
      let name = (declared dep).projection_name in
      elim (Dict.get text_discrete name resolved) [
        | none ↦ raise key_error
        | some fp ↦ dependency_fingerprints resolved deps (Dict.put text_discrete name fp found)
      ]

  abbrev pub names_of : List Class → List String
  names_of classes = map (λ c. (declared c).projection_name) classes

  module _ {Compiled : Type 0} where
    -- Why a class is dirty, if it is.
    unfoldable pub dirty_reason :
        String → ProjectionCache Compiled → List String → String → Class → Option Reason
    dirty_reason project_id cache dirty fp cls =
        elim (keep (λ n. is_named n dirty) (names_of (declared cls).dependencies)) [
          | dep ∷ deps ↦ some (dependency_changed (dep ∷ deps))
          | [] ↦
              elim (get_entry cache
                (project_id, (declared cls).projection_name, (declared cls).version)) [
                  | none ↦ some missing_entry
                  | some entry ↦ mismatch (declared cls).version fp entry
                ]
        ]

module _ (decimal : ℕ → String) where
  unfoldable pub version_text : SemVer → String
  version_text v =
      append_text (decimal v.major)
        (append_text "." (append_text (decimal v.minor) (append_text "." (decimal v.patch))))

module _ (sha256 : String → String) (decimal : ℕ → String) where
  unfoldable pub compute_composite_fingerprint :
      SemVer → Dict String String → Option String → String
  compute_composite_fingerprint version dependency_fingerprints raw_input_hash = sha256 (
      append_text "composite|" (
        append_text (version_text decimal version) (
          append_text "|" (
            append_text (join_items (sort_items dependency_fingerprints))
              (append_text "|" (get_or raw_input_hash ""))))))

  module _ (declared : Class → BaseProjection) where
    -- The fingerprint of a class; an empty text counts as missing.
    unfoldable pub fingerprint_of : Dict String String → Dict String String → Class → Result String
    fingerprint_of current resolved cls = elim (declared cls).projection_kind [
      | base ↦ elim (Dict.get text_discrete (declared cls).projection_name current) [
        | none ↦ raise value_error
        | some fp ↦ if str_eq fp "" then raise value_error else ok fp
      ]
      | _ ↦ do
        fps ← dependency_fingerprints declared resolved (declared cls).dependencies []
        ok (
            compute_composite_fingerprint (declared cls).version fps
              (elim (declared cls).dependencies [
                | [] ↦ Dict.get text_discrete (declared cls).projection_name current
                | dep ∷ deps ↦ none
              ]))
    ]

    module _ {Compiled : Type 0} where
      unfoldable pub plan_round :
          String
          → Dict String String
          → ProjectionCache Compiled
          → Planning
          → Class
          → Result Planning
      plan_round project_id current cache p cls = do
        fp ← fingerprint_of current p.resolved_fingerprints cls
        ok (
            decided p (declared cls).projection_name fp
              (dirty_reason declared project_id cache p.dirty_nodes fp cls))

      -- `RebuildPlanner.plan`
      unfoldable pub plan :
          String
          → Dict String String
          → ProjectionCache Compiled
          → ProjectionRegistry
          → Option (Result RebuildPlan)
      plan project_id current cache registry = elim (topological_sort declared registry) [
        | none ↦ none
        | some (raise e) ↦ some (raise e)
        | some (ok order) ↦ some (do
          p ← for_each (plan_round project_id current cache) order no_planning
          ok (plan_of p))
      ]
