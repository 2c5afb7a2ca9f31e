-- ===== src/Planner/Fresh.antt =====
-- A plan over a cache that is up to date rebuilds nothing (projections/planner.py).
use rationale_vault.Prelude.{
  ℕ, String, true, false, some, List, [], ◌∷◌, ◌++◌, Result-cases, ok, raise, ◌≡◌, refl, sym, ap,
  ◌∙◌, inl, inr, All, All-imp, some_of, str_eq, eq_iff, text_discrete,
}
use mathlib.Core.Logic.{ite}
use mathlib.Core.Path.{subst}
use rationale_vault.Prelude.Dict
use rationale_vault.Prelude.Dict.{Dict}
use rationale_vault.Projections.{Class, SemVer, BaseProjection, ProjectionRegistry, mem}
use rationale_vault.Projections.Membership.{test_self, mem-tail, mem-cons, mem-snoc}
use rationale_vault.Projections.Kahn.{IsBuilt}
use rationale_vault.Projections.Register.{IsRegistry}
use rationale_vault.Projections.Cycles.Sort.{topological_sort-IsBuilt}
use rationale_vault.Planner.{
  SemVer_discrete, CacheEntry, ProjectionCache, get_entry, RebuildPlan, is_named, names_of, plan,
}
use rationale_vault.Planner.Verdicts.{IsJudged}
use rationale_vault.Planner.Stale.{plan-unsorted, plan-is_stale}

same_version : (a b : SemVer) → a ≡ b → ite (SemVer_discrete a b) true false ≡ true
same_version a b e = elim (SemVer_discrete a b) as (λ d. ite d true false ≡ true) [
  | yes _ ↦ refl
  | no n ↦ absurd (n e)
]

module _ {Compiled : Type 0} (declared : Class → BaseProjection) (project_id : String)
    (cache : ProjectionCache Compiled) where
  -- The class's cache entry has its version and its fingerprint.
  abbrev pub IsCached : Dict String String → Class → Type 0
  IsCached resolved c =
      (entry : CacheEntry Compiled) × (get_entry cache
          (project_id, (declared c).projection_name, (declared c).version)
        ≡ some entry)
      × (Dict.get text_discrete (declared c).projection_name resolved ≡ some entry.fingerprint)
      × (entry.version ≡ (declared c).version)

  deps_clean :
      (dirty : List String) (deps : List Class)
      → All (λ d. is_named (declared d).projection_name dirty ≡ false) deps
      → some_of (λ n. is_named n dirty) (names_of declared deps) ≡ false
  deps_clean dirty [] h = refl
  deps_clean dirty (d ∷ deps) h = rw h.0 (deps_clean dirty deps h.1)

  cached_clean :
      (resolved : Dict String String) (dirty : List String) (c : Class)
      → IsJudged declared project_id cache resolved dirty c
      → IsCached resolved c
      → All (λ d. is_named (declared d).projection_name dirty ≡ false) (declared c).dependencies
      → is_named (declared c).projection_name dirty ≡ false
  cached_clean resolved dirty c (fp, found, verdict) (entry, there, matches, version) clean =
      let same : some fp ≡ some entry.fingerprint = sym found ∙ matches in
      let equal : fp ≡ entry.fingerprint = cc same in
      let test : str_eq entry.fingerprint fp ≡ true = (eq_iff entry.fingerprint fp).1 (sym equal) in
      verdict
      ∙ rw
          (
            deps_clean dirty (declared c).dependencies clean,
            there,
            test,
            same_version entry.version (declared c).version version,
          )
          refl

  built_clean :
      (resolved : Dict String String) (dirty : List String) (before cs : List Class)
      → IsBuilt declared before cs
      → ((c : Class) → mem c before ≡ true → is_named (declared c).projection_name dirty ≡ false)
      → ((c : Class)
          → mem c cs ≡ true
          → IsJudged declared project_id cache resolved dirty c × IsCached resolved c)
      → (c : Class) → mem c cs ≡ true
      → is_named (declared c).projection_name dirty ≡ false
  built_clean resolved dirty before [] built old known c at = absurd (cc at)
  built_clean resolved dirty before (x ∷ cs) built old known c at =
      let (judged, cached) = known x (rw (test_self x) refl) in
      let now : is_named (declared x).projection_name dirty ≡ false =
        cached_clean resolved dirty x judged cached
          (All-imp _ _ (λ d there. old d there) (declared x).dependencies built.0) in
      elim (mem-cons c x cs at) [
        | inl same ↦ subst (λ y. is_named (declared y).projection_name dirty ≡ false) same now
        | inr later ↦
            built_clean resolved dirty (before ++ x ∷ []) cs built.1
              (λ d there. elim (mem-snoc d x before there) [
                | inl same ↦
                    subst (λ y. is_named (declared y).projection_name dirty ≡ false) same now
                | inr earlier ↦ old d earlier
              ])
              (λ d there. known d (mem-tail d x cs there)) c later
      ]

-- Where the cache has, for every registered class, an entry of the class's version and of the
-- fingerprint that a plan resolved for it, the plan has none of their names among the dirty ones. It
-- asks that no class is registered twice and each is found under its own name.
pub plan-IsCached :
    {Compiled : Type 0} (sha256 : String → String) (decimal : ℕ → String)
    (declared : Class → BaseProjection) (project_id : String) (current : Dict String String)
    (cache : ProjectionCache Compiled) (registry : ProjectionRegistry) (r : RebuildPlan)
    → IsRegistry declared registry
    → plan sha256 decimal declared project_id current cache registry ≡ some (ok r)
    → ((c : Class)
        → mem c registry.classes ≡ true
        → IsCached declared project_id cache r.resolved_fingerprints c)
    → (c : Class) → mem c registry.classes ≡ true
    → is_named (declared c).projection_name r.dirty_nodes ≡ false
plan-IsCached sha256 decimal declared project_id current cache registry r well h cached c at =
    let (result, run, ordered) = topological_sort-IsBuilt declared registry well.0 in
    elim (Result-cases result) [
      | inr (e, f) ↦
          let refused =
            plan-unsorted sha256 decimal declared project_id current cache registry e
              (run ∙ ap some f) in
          let h' : some (raise e) ≡ some (ok r) = sym refused ∙ h in absurd (cc h')
      | inl (order, f) ↦
          let (built, _, same) = ordered order f in
          built_clean declared project_id cache r.resolved_fingerprints r.dirty_nodes [] order built
            (λ x none_there. absurd (cc none_there))
            (λ x there.
              let registered : mem x registry.classes ≡ true = sym (same x) ∙ there in
              (
                plan-is_stale sha256 decimal declared project_id current cache registry r well h x
                    registered,
                cached x registered,
              ))
            c (same c ∙ at)
    ]
