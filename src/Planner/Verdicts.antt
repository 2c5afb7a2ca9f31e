-- ===== src/Planner/Verdicts.antt =====
-- What is dirty in a rebuild plan (projections/planner.py).
use rationale_vault.Prelude.{
  String, Bool, true, false, not, ◌&&◌, Bool-cases, Option, Option-cases, none, some, List, [], ◌∷◌,
  ◌++◌, ◌≡◌, ◌≢◌, refl, ap, inl, inr, ◌⊎◌, keep, some_of, str_eq, eq_iff, text_discrete,
  if◌then◌else◌,
}
use mathlib.Core.Logic.{ite}
use rationale_vault.Prelude.Dict
use rationale_vault.Prelude.Dict.{Dict}
use rationale_vault.Projections.{Class, SemVer, BaseProjection, mem}
use rationale_vault.Projections.Membership.{test_self, mem-tail}
use rationale_vault.Planner.{
  SemVer_discrete, CacheEntry, ProjectionCache, get_entry, version_mismatch, Planning, is_named,
  mismatch, names_of, dirty_reason,
}

abbrev pub is_some : {A : Type 0} → Option A → Bool
is_some none = false
is_some (some x) = true

pub ne_of_str_eq : (s t : String) → str_eq s t ≡ false → s ≢ t
ne_of_str_eq s t h e = cc ((eq_iff s t).1 e)

keep-cases :
    (p : String → Bool) (ns : List String)
    → ((keep p ns ≡ []) × (some_of p ns ≡ false))
      ⊎ ((n : String) × (rest : List String) × (keep p ns ≡ n ∷ rest) × (some_of p ns ≡ true))
keep-cases p [] = inl (refl, refl)
keep-cases p (n ∷ ns) = elim (Bool-cases (p n)) [
  | inl e ↦ inr (n, keep p ns, rw e refl, rw e refl)
  | inr e ↦ elim (keep-cases p ns) [
    | inl (f, g) ↦ inl (rw e f, rw e g)
    | inr (m, rest, f, g) ↦ inr (m, rest, rw e f, rw e g)
  ]
]

module _ (declared : Class → BaseProjection) where
  named-other :
      (n : String) (dirty : List String) (deps : List Class)
      → ((d : Class) → mem d deps ≡ true → str_eq n (declared d).projection_name ≡ false)
      → some_of (λ m. is_named m (n ∷ dirty)) (names_of declared deps)
        ≡ some_of (λ m. is_named m dirty) (names_of declared deps)
  named-other n dirty [] other = refl
  named-other n dirty (d ∷ deps) other =
      let first : str_eq n (declared d).projection_name ≡ false = other d (rw (test_self d) refl) in
      rw first (
        ap (λ b. if is_named (declared d).projection_name dirty then true else b)
          (named-other n dirty deps (λ x h. other x (mem-tail x d deps h))))

module _ {Compiled : Type 0} (declared : Class → BaseProjection) where
  -- A class is stale where one of its dependencies is dirty, or its cache entry is missing or is of
  -- another fingerprint or version.
  abbrev pub is_stale : String → ProjectionCache Compiled → List String → String → Class → Bool
  is_stale project_id cache dirty fp c =
      if some_of (λ n. is_named n dirty) (names_of declared (declared c).dependencies)
      then true
      else elim (get_entry cache (project_id, (declared c).projection_name, (declared c).version)) [
        | none ↦ true
        | some entry ↦ not (
            str_eq entry.fingerprint fp
            && ite (SemVer_discrete entry.version (declared c).version) true false)
      ]

  mismatch-is_stale :
      (version : SemVer) (fp : String) (entry : CacheEntry Compiled)
      → is_some (mismatch version fp entry)
        ≡ not
            (str_eq entry.fingerprint fp && ite (SemVer_discrete entry.version version) true false)
  unfolding mismatch
  mismatch-is_stale version fp entry = elim (Bool-cases (str_eq entry.fingerprint fp)) [
    | inl e ↦
        rw e
          (elim (SemVer_discrete entry.version version)
            as (λ d.
              is_some (ite d none (some (version_mismatch entry.version version)))
              ≡ not (ite d true false)) [ yes f ↦ refl | no n ↦ refl ])
    | inr e ↦ rw e refl
  ]

  pub dirty_reason-is_stale :
      (project_id : String) (cache : ProjectionCache Compiled) (dirty : List String) (fp : String)
      (c : Class)
      → is_some (dirty_reason declared project_id cache dirty fp c)
        ≡ is_stale project_id cache dirty fp c
  unfolding dirty_reason
  dirty_reason-is_stale project_id cache dirty fp c =
      elim (keep-cases (λ n. is_named n dirty) (names_of declared (declared c).dependencies)) [
        | inr (n, rest, e, f) ↦ rw (e, f, dirty_reason) refl
        | inl (e, f) ↦
            elim (Option-cases
              (get_entry cache (project_id, (declared c).projection_name, (declared c).version))) [
                | inl g ↦ rw (e, f, g, dirty_reason) refl
                | inr (entry, g) ↦
                    rw (e, f, g, dirty_reason) (mismatch-is_stale (declared c).version fp entry)
              ]
      ]

  -- Another name among the dirty ones does not matter to a class none of whose dependencies has it.
  pub is_stale-other :
      (project_id : String) (cache : ProjectionCache Compiled) (n : String) (dirty : List String)
      (fp : String) (c : Class)
      → ((d : Class)
          → mem d (declared c).dependencies ≡ true
          → str_eq n (declared d).projection_name ≡ false)
      → is_stale project_id cache (n ∷ dirty) fp c ≡ is_stale project_id cache dirty fp c
  is_stale-other project_id cache n dirty fp c other =
      ap
        (λ b.
          if b
          then true
          else elim (get_entry cache
              (project_id, (declared c).projection_name, (declared c).version)) [
                | none ↦ true
                | some entry ↦ not (
                    str_eq entry.fingerprint fp
                    && ite (SemVer_discrete entry.version (declared c).version) true false)
              ])
        (named-other declared n dirty (declared c).dependencies other)

-- Names of classes that come before others in a list are those of no other.
abbrev pub HasNames : (Class → BaseProjection) → List Class → List Class → Type 0
HasNames declared before [] = Unit
HasNames declared before (x ∷ cs) =
    ((c : Class)
      → (mem c before ≡ true) ⊎ (mem c cs ≡ true)
      → str_eq (declared x).projection_name (declared c).projection_name ≡ false)
    × HasNames declared (before ++ x ∷ []) cs

module _ {Compiled : Type 0} (declared : Class → BaseProjection) (project_id : String)
    (cache : ProjectionCache Compiled) where
  -- The class has a fingerprint, and is dirty just where it is stale.
  abbrev pub IsJudged : Dict String String → List String → Class → Type 0
  IsJudged resolved dirty c =
      (fp : String) × (Dict.get text_discrete (declared c).projection_name resolved ≡ some fp)
      × (is_named (declared c).projection_name dirty
          ≡ is_stale declared project_id cache dirty fp c)

  -- What holds after the classes of a list.
  pub record IsPlanned (before cs : List Class) (p : Planning) : Type 0 where
    pub judged :
        (c : Class) → mem c before ≡ true → IsJudged p.resolved_fingerprints p.dirty_nodes c
    pub deps_before :
        (c d : Class)
        → mem c before ≡ true
        → mem d (declared c).dependencies ≡ true
        → mem d before ≡ true
    pub clean :
        (c : Class) → mem c cs ≡ true → is_named (declared c).projection_name p.dirty_nodes ≡ false
