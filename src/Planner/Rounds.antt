-- ===== src/Planner/Rounds.antt =====
-- What a round of the planner does to the verdicts on the classes before it (projections/planner.py).
use rationale_vault.Prelude.{
  String, Bool, true, false, Option, none, some, List, ◌∷◌, ◌≡◌, refl, sym, ◌∙◌, inl, ◌⊎◌, All,
  str_eq, eq_iff, text_discrete, if◌then◌else◌,
}
use rationale_vault.Prelude.Dict
use rationale_vault.Prelude.Dict.{Dict}
use rationale_vault.Projections.{Class, BaseProjection, mem}
use rationale_vault.Projections.Order.{mem-All}
use rationale_vault.Planner.{ProjectionCache, Reason, Planning, is_named, decided}
use rationale_vault.Planner.Verdicts.{is_some, ne_of_str_eq, is_stale, is_stale-other, IsJudged}

-- The dirty names after a class.
abbrev pub extended : Bool → String → List String → List String
extended b n dirty = if b then n ∷ dirty else dirty

decided-dirty :
    (p : Planning) (n fp : String) (reason : Option Reason)
    → (decided p n fp reason).dirty_nodes ≡ extended (is_some reason) n p.dirty_nodes
decided-dirty p n fp none = refl
decided-dirty p n fp (some reason) = refl

decided-resolved :
    (p : Planning) (n fp : String) (reason : Option Reason)
    → (decided p n fp reason).resolved_fingerprints
      ≡ Dict.put text_discrete n fp p.resolved_fingerprints
decided-resolved p n fp none = refl
decided-resolved p n fp (some reason) = refl

pub is_named-other :
    (b : Bool) (n m : String) (dirty : List String)
    → str_eq n m ≡ false
    → is_named m (extended b n dirty) ≡ is_named m dirty
is_named-other true n m dirty other = rw other refl
is_named-other false n m dirty other = refl

is_named_self :
    (b : Bool) (n : String) (dirty : List String)
    → is_named n dirty ≡ false
    → is_named n (extended b n dirty) ≡ b
is_named_self true n dirty clean = rw ((eq_iff n n).1 refl) refl
is_named_self false n dirty clean = clean

module _ {Compiled : Type 0} (declared : Class → BaseProjection) (project_id : String)
    (cache : ProjectionCache Compiled) where
  is_stale-extended :
      (b : Bool) (n : String) (dirty : List String) (fp : String) (c : Class)
      → ((d : Class)
          → mem d (declared c).dependencies ≡ true
          → str_eq n (declared d).projection_name ≡ false)
      → is_stale declared project_id cache (extended b n dirty) fp c
        ≡ is_stale declared project_id cache dirty fp c
  is_stale-extended true n dirty fp c other =
      is_stale-other declared project_id cache n dirty fp c other
  is_stale-extended false n dirty fp c other = refl

  module _ (before cs : List Class) (x : Class) (fp : String) (b : Bool)
      (resolved : Dict String String) (dirty : List String)
      (apart : (c : Class)
        → (mem c before ≡ true) ⊎ (mem c cs ≡ true)
        → str_eq (declared x).projection_name (declared c).projection_name ≡ false)
      (deps : All (λ d. mem d before ≡ true) (declared x).dependencies) where
    pub IsJudged-old :
        (c : Class)
        → mem c before ≡ true
        → ((d : Class) → mem d (declared c).dependencies ≡ true → mem d before ≡ true)
        → IsJudged declared project_id cache resolved dirty c
        → IsJudged declared project_id cache
            (Dict.put text_discrete (declared x).projection_name fp resolved)
            (extended b (declared x).projection_name dirty)
            c
    IsJudged-old c there old_deps (fp', found, verdict) =
        let other = apart c (inl there) in
        (
          fp',
          Dict.get-put_ne text_discrete (declared x).projection_name (declared c).projection_name fp
                resolved (ne_of_str_eq _ _ other)
              ∙ found,
          is_named-other b (declared x).projection_name (declared c).projection_name dirty other
              ∙ verdict
              ∙ sym (
                  is_stale-extended b (declared x).projection_name dirty fp' c
                    (λ d h. apart d (inl (old_deps d h)))),
        )

    pub IsJudged-new :
        is_named (declared x).projection_name dirty ≡ false
        → b ≡ is_stale declared project_id cache dirty fp x
        → IsJudged declared project_id cache
            (Dict.put text_discrete (declared x).projection_name fp resolved)
            (extended b (declared x).projection_name dirty)
            x
    IsJudged-new clean verdict = (
      fp,
      Dict.get-put_self text_discrete (declared x).projection_name fp resolved,
      is_named_self b (declared x).projection_name dirty clean
          ∙ verdict
          ∙ sym (
              is_stale-extended b (declared x).projection_name dirty fp x
                (λ d h. apart d (inl (mem-All _ d (declared x).dependencies deps h)))),
    )
