-- ===== src/Planner/Stale.antt =====
-- What is dirty in a plan is what is stale (projections/planner.py).
use rationale_vault.Prelude.{
  ℕ, String, true, false, Bool-cases, some, List, [], ◌∷◌, ◌++◌, Result, Result-cases, ok, raise,
  Exception, ◌>>=◌, >>=-inv, ◌≡◌, ◌≢◌, refl, sym, ap, ◌∙◌, inl, inr, ◌⊎◌, str_eq, eq_iff,
  text_discrete,
}
use mathlib.Core.Path.{subst}
use rationale_vault.Prelude.Dict
use rationale_vault.Prelude.Dict.{Dict}
use rationale_vault.Events.{for_each}
use rationale_vault.Projections.{Class, BaseProjection, ProjectionRegistry, mem}
use rationale_vault.Projections.Membership.{IsDistinct, test_self, mem-tail, mem-snoc}
use rationale_vault.Projections.Register.{IsRegistry}
use rationale_vault.Projections.Cycles.{topological_sort}
use rationale_vault.Projections.Cycles.Sort.{topological_sort-IsBuilt}
use rationale_vault.Planner.{
  ProjectionCache, RebuildPlan, Planning, no_planning, plan_round, plan_of, plan,
}
use rationale_vault.Planner.Verdicts.{HasNames, IsJudged}
use rationale_vault.Planner.Loop.{rounds-IsPlanned}

module _ (declared : Class → BaseProjection) (registry : ProjectionRegistry) where
  name-apart :
      (x c : Class)
      → IsRegistry declared registry
      → mem x registry.classes ≡ true
      → mem c registry.classes ≡ true
      → x ≢ c
      → str_eq (declared x).projection_name (declared c).projection_name ≡ false
  name-apart x c (_, named) at_x at_c other =
      elim (Bool-cases (str_eq (declared x).projection_name (declared c).projection_name)) [
        | inr e ↦ e
        | inl e ↦
            let same = (eq_iff (declared x).projection_name (declared c).projection_name).0 e in
            let found : some x ≡ some c =
              sym (named x at_x)
              ∙ ap (λ n. Dict.get text_discrete n registry.projections) same
              ∙ named c at_c in
            let equal : x ≡ c = cc found in absurd (other equal)
      ]

  registry-HasNames :
      (before cs : List Class)
      → IsRegistry declared registry
      → ((c : Class) → (mem c before ≡ true) ⊎ (mem c cs ≡ true) → mem c registry.classes ≡ true)
      → ((c : Class) → mem c before ≡ true → mem c cs ≡ false)
      → IsDistinct cs
      → HasNames declared before cs
  registry-HasNames before [] well known apart distinct = tt
  registry-HasNames before (x ∷ cs) well known apart distinct =
      let here : mem x (x ∷ cs) ≡ true = rw (test_self x) refl in
      (
        (λ c at. elim at [
          | inl old ↦ name-apart x c well (known x (inr here)) (known c (inl old)) (λ e.
              let there : mem c (x ∷ cs) ≡ true = subst (λ y. mem y (x ∷ cs) ≡ true) e here in
              cc (there, apart c old))
          | inr later ↦
              name-apart x c well (known x (inr here)) (known c (inr (mem-tail c x cs later))) (λ e.
                let there : mem x cs ≡ true = subst (λ y. mem y cs ≡ true) (sym e) later in
                cc (there, distinct.0))
        ]),
        registry-HasNames (before ++ x ∷ []) cs well
            (λ c at. elim at [
              | inl old ↦ elim (mem-snoc c x before old) [
                | inl same ↦ subst (λ y. mem y registry.classes ≡ true) same (known x (inr here))
                | inr there ↦ known c (inl there)
              ]
              | inr later ↦ known c (inr (mem-tail c x cs later))
            ])
            (λ c old. elim (mem-snoc c x before old) [
              | inl same ↦ subst (λ y. mem y cs ≡ false) same distinct.0
              | inr there ↦ elim (Bool-cases (mem c cs)) [
                | inr e ↦ e
                | inl e ↦ absurd (cc (mem-tail c x cs e, apart c there))
              ]
            ])
            distinct.1,
      )

module _ {Compiled : Type 0} (sha256 : String → String) (decimal : ℕ → String)
    (declared : Class → BaseProjection) (project_id : String) (current : Dict String String)
    (cache : ProjectionCache Compiled) (registry : ProjectionRegistry) where
  abbrev planned_over : List Class → Result RebuildPlan
  planned_over order =
      for_each (plan_round sha256 decimal declared project_id current cache) order no_planning
      >>= λ p. ok (plan_of p)

  plan-sorted :
      (order : List Class)
      → topological_sort declared registry ≡ some (ok order)
      → plan sha256 decimal declared project_id current cache registry ≡ some (planned_over order)
  unfolding plan
  plan-sorted order sorted = rw (sorted, plan)

  pub plan-unsorted :
      (e : Exception)
      → topological_sort declared registry ≡ some (raise e)
      → plan sha256 decimal declared project_id current cache registry ≡ some (raise e)
  unfolding plan
  plan-unsorted e sorted = rw (sorted, plan)

-- In a plan that is returned for a registry in which no class is registered twice and each is found
-- under its own name, every registered class has a fingerprint, and its name is dirty just where one of
-- its dependencies has a dirty name, or its cache entry is missing, or the entry's fingerprint or
-- version is not the class's.
pub plan-is_stale :
    {Compiled : Type 0} (sha256 : String → String) (decimal : ℕ → String)
    (declared : Class → BaseProjection) (project_id : String) (current : Dict String String)
    (cache : ProjectionCache Compiled) (registry : ProjectionRegistry) (r : RebuildPlan)
    → IsRegistry declared registry
    → plan sha256 decimal declared project_id current cache registry ≡ some (ok r)
    → (c : Class) → mem c registry.classes ≡ true
    → IsJudged declared project_id cache r.resolved_fingerprints r.dirty_nodes c
plan-is_stale sha256 decimal declared project_id current cache registry r well h c at =
    let (result, run, ordered) = topological_sort-IsBuilt declared registry well.0 in
    elim (Result-cases result) [
      | inr (e, f) ↦
          let refused =
            plan-unsorted sha256 decimal declared project_id current cache registry e
              (run ∙ ap some f) in
          let h' : some (raise e) ≡ some (ok r) = sym refused ∙ h in absurd (cc h')
      | inl (order, f) ↦
          let (built, once, same) = ordered order f in
          let h' : some
                (planned_over sha256 decimal declared project_id current cache registry order)
              ≡ some (ok r) =
            sym (
              plan-sorted sha256 decimal declared project_id current cache registry order
                (run ∙ ap some f))
            ∙ h in
          let h1 : planned_over sha256 decimal declared project_id current cache registry order
              ≡ ok r =
            cc h' in
          let (p, loop, h2) =
            >>=-inv
              (for_each (plan_round sha256 decimal declared project_id current cache) order
                no_planning)
              (λ (p : Planning). ok (plan_of p)) h1 in
          let e : plan_of p ≡ r = cc h2 in
          let names =
            registry-HasNames declared registry [] order well
              (λ x known. elim known [
                | inl none_there ↦ absurd (cc none_there)
                | inr there ↦ sym (same x) ∙ there
              ])
              (λ x none_there. absurd (cc none_there)) once in
          let planned =
            rounds-IsPlanned declared project_id cache sha256 decimal current order [] no_planning p
              loop names built
              (record {
                judged = λ x none_there. absurd (cc none_there);
                deps_before = λ x d none_there dep. absurd (cc none_there);
                clean = λ x there. refl;
              }) in
          subst (λ x. IsJudged declared project_id cache x.resolved_fingerprints x.dirty_nodes c) e
            (planned.judged c (same c ∙ at))
    ]
