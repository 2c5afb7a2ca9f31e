-- ===== src/Planner/Loop.antt =====
-- The loop of the planner over all its rounds (projections/planner.py).
use rationale_vault.Prelude.{
  ℕ, String, Bool, true, false, Option, none, some, List, [], ◌∷◌, ◌++◌, ok, >>=-inv, ◌≡◌, refl,
  sym, ◌∙◌, inl, inr, ◌⊎◌, All, str_eq, text_discrete,
}
use mathlib.Core.List.{append_assoc, append-nil}
use mathlib.Core.Path.{subst}
use rationale_vault.Prelude.Dict
use rationale_vault.Prelude.Dict.{Dict}
use rationale_vault.Events.{for_each}
use rationale_vault.Projections.{Class, BaseProjection, mem}
use rationale_vault.Projections.Membership.{test_self, mem-tail, mem-snoc, mem-snoc_old}
use rationale_vault.Projections.Kahn.{IsBuilt}
use rationale_vault.Projections.Order.{mem-All}
use rationale_vault.Planner.{
  ProjectionCache, Reason, Planning, is_named, fingerprint_of, dirty_reason, decided, plan_round,
}
use rationale_vault.Planner.Verdicts.{
  is_some, is_stale, dirty_reason-is_stale, HasNames, IsJudged, IsPlanned,
}
use rationale_vault.Planner.Rounds.{extended, is_named-other, IsJudged-old, IsJudged-new}

module _ {Compiled : Type 0} (declared : Class → BaseProjection) (project_id : String)
    (cache : ProjectionCache Compiled) where
  -- One round, on a class whose dependencies are before it.
  module _ (before cs : List Class) (x : Class) (fp : String) (p : Planning)
      (apart : (c : Class)
        → (mem c before ≡ true) ⊎ (mem c cs ≡ true)
        → str_eq (declared x).projection_name (declared c).projection_name ≡ false)
      (deps : All (λ d. mem d before ≡ true) (declared x).dependencies)
      (planned : IsPlanned declared project_id cache before (x ∷ cs) p) where
    IsJudged-all :
        (b : Bool)
        → b ≡ is_stale declared project_id cache p.dirty_nodes fp x
        → (c : Class) → mem c (before ++ x ∷ []) ≡ true
        → IsJudged declared project_id cache
            (Dict.put text_discrete (declared x).projection_name fp p.resolved_fingerprints)
            (extended b (declared x).projection_name p.dirty_nodes)
            c
    IsJudged-all b verdict c h = elim (mem-snoc c x before h) [
      | inl same ↦
          subst
            (IsJudged declared project_id cache
              (Dict.put text_discrete (declared x).projection_name fp p.resolved_fingerprints)
              (extended b (declared x).projection_name p.dirty_nodes))
            same
            (IsJudged-new declared project_id cache before cs x fp b p.resolved_fingerprints
              p.dirty_nodes apart deps (planned.clean x (rw (test_self x) refl)) verdict)
      | inr there ↦
          IsJudged-old declared project_id cache before cs x fp b p.resolved_fingerprints
            p.dirty_nodes apart deps c there (λ d dep. planned.deps_before c d there dep)
            (planned.judged c there)
    ]

    deps_all :
        (c d : Class)
        → mem c (before ++ x ∷ []) ≡ true
        → mem d (declared c).dependencies ≡ true
        → mem d (before ++ x ∷ []) ≡ true
    deps_all c d h dep = elim (mem-snoc c x before h) [
      | inl same ↦
          let dep' : mem d (declared x).dependencies ≡ true =
            subst (λ y. mem d (declared y).dependencies ≡ true) (sym same) dep in
          mem-snoc_old d x before (mem-All _ d (declared x).dependencies deps dep')
      | inr there ↦ mem-snoc_old d x before (planned.deps_before c d there dep)
    ]

    clean_all :
        (b : Bool) (c : Class)
        → mem c cs ≡ true
        → is_named
            (declared c).projection_name
            (extended b (declared x).projection_name p.dirty_nodes)
          ≡ false
    clean_all b c h =
        is_named-other b (declared x).projection_name (declared c).projection_name p.dirty_nodes
          (apart c (inr h))
        ∙ planned.clean c (mem-tail c x cs h)

    IsPlanned-next :
        (reason : Option Reason)
        → is_some reason ≡ is_stale declared project_id cache p.dirty_nodes fp x
        → IsPlanned declared project_id cache
            (before ++ x ∷ [])
            cs
            (decided p (declared x).projection_name fp reason)
    IsPlanned-next none verdict = record {
      judged = IsJudged-all false verdict;
      deps_before = deps_all;
      clean = clean_all false;
    }
    IsPlanned-next (some reason) verdict = record {
      judged = IsJudged-all true verdict;
      deps_before = deps_all;
      clean = clean_all true;
    }

  module _ (sha256 : String → String) (decimal : ℕ → String) (current : Dict String String) where
    pub rounds-IsPlanned :
        (cs before : List Class) (p p' : Planning)
        → for_each (plan_round sha256 decimal declared project_id current cache) cs p ≡ ok p'
        → HasNames declared before cs
        → IsBuilt declared before cs
        → IsPlanned declared project_id cache before cs p
        → IsPlanned declared project_id cache (before ++ cs) [] p'
    unfolding for_each plan_round
    rounds-IsPlanned [] before p p' h names built planned =
        let e : p ≡ p' = cc h in
        subst (λ xs. IsPlanned declared project_id cache xs [] p') (sym (append-nil before))
          (subst (IsPlanned declared project_id cache before []) e planned)
    rounds-IsPlanned (x ∷ cs) before p p' h names built planned =
        let (p1, h1, rest) =
          >>=-inv (plan_round sha256 decimal declared project_id current cache p x)
            (for_each (plan_round sha256 decimal declared project_id current cache) cs) h in
        let (fp, _, h2) =
          >>=-inv (fingerprint_of sha256 decimal declared current p.resolved_fingerprints x)
            (λ (fp : String). ok (
              decided p (declared x).projection_name fp
                (dirty_reason declared project_id cache p.dirty_nodes fp x)))
            h1 in
        let e : decided p (declared x).projection_name fp
              (dirty_reason declared project_id cache p.dirty_nodes fp x)
            ≡ p1 =
          cc h2 in
        let next =
          IsPlanned-next before cs x fp p names.0 built.0 planned
            (dirty_reason declared project_id cache p.dirty_nodes fp x)
            (dirty_reason-is_stale declared project_id cache p.dirty_nodes fp x) in
        subst (λ xs. IsPlanned declared project_id cache xs [] p') (append_assoc before (x ∷ []) cs)
          (rounds-IsPlanned cs (before ++ x ∷ []) p1 p' rest names.1 built.1
            (subst (IsPlanned declared project_id cache (before ++ x ∷ []) cs) e next))
