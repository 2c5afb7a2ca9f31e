-- ===== src/Projections/Cycles/Roots.antt =====
-- The search for cycles from every class that is not yet visited (projections/registry.py).
use rationale_vault.Prelude.{
  ◌≤◌, true, false, Bool-cases, some, List, [], ◌∷◌, Result, Result-cases, ok, raise, ◌≡◌, refl,
  sym, ap, ◌∙◌, inl, inr, ◌==◌, arith, Exception,
}
use mathlib.Core.Path.{subst}
use rationale_vault.Projections.{Class, BaseProjection, mem, set_at}
use rationale_vault.Projections.Membership.{eq_of_test, test_self, mem-cons, mem-tail}
use rationale_vault.Projections.Kahn.{IsBuilt}
use rationale_vault.Projections.Cycles.{
  Mark, unvisited, visiting, visited, from_last, cycle_loop, visit_roots, rounds, validate_cycles,
}
use rationale_vault.Projections.Cycles.Visits.{
  Mark-cases, is_open, is_finished, length-from_last, mem-from_last, left, left-visit,
}
use rationale_vault.Projections.Cycles.Search.{IsSearched}
use rationale_vault.Projections.Cycles.Rounds.{
  IsLater, IsLater-set_at, Searches, cycle_loop-Searches,
}

pub open_mark : (m : Mark) → is_open m ≡ true → m ≡ unvisited
open_mark unvisited h = refl
open_mark visiting h = absurd (cc h)
open_mark visited h = absurd (cc h)

module _ (declared : Class → BaseProjection) (classes : List Class) where
  left-rounds_le :
      (marks : Class → Mark) (cs : List Class) → left declared marks cs ≤ rounds declared cs
  unfolding rounds
  left-rounds_le marks [] = omega arith
  left-rounds_le marks (c ∷ cs) = elim (Bool-cases (is_open (marks c))) [
    | inl e ↦ rw e (omega (arith, left-rounds_le marks cs))
    | inr e ↦ rw e (omega (arith, left-rounds_le marks cs))
  ]

  pub IsSearched-root :
      (marks : Class → Mark) (root : Class) (finished : List Class)
      → marks root ≡ unvisited
      → IsSearched declared marks [] finished
      → IsSearched declared
          (set_at root visiting marks)
          ((root, from_last (declared root).dependencies) ∷ [])
          finished
  unfolding set_at
  IsSearched-root marks root finished new s = record {
    marked = λ c. elim (Bool-cases (c == root)) [
      | inl e ↦
          let same = eq_of_test c root e in
          rw e (subst (λ x. mem x finished ≡ false) (sym same) (s.marked root ∙ ap is_finished new))
      | inr e ↦ rw e (s.marked c)
    ];
    built = s.built;
    chained = ((λ d h. inr (inl (mem-from_last d (declared root).dependencies ∙ h))), tt);
    stacked_up = λ c h. elim (Bool-cases (c == root)) [
      | inl e ↦
          let same = eq_of_test c root e in
          subst (λ x. mem x (root ∷ []) ≡ true) (sym same) (rw (test_self root) refl)
      | inr e ↦
          let h' : marks c ≡ visiting = rw e at h in
          let there : mem c [] ≡ true = s.stacked_up c h' in absurd (cc there)
    ];
  }

  -- The search from an unvisited class ends within the fuel.
  pub search_root :
      (root : Class) (marks : Class → Mark) (finished : List Class)
      → marks root ≡ unvisited
      → mem root classes ≡ true
      → IsSearched declared marks [] finished
      → Searches declared classes
          (rounds declared classes)
          (set_at root visiting marks)
          ((root, from_last (declared root).dependencies) ∷ [])
  search_root root marks finished new registered s =
      cycle_loop-Searches declared classes (rounds declared classes) (set_at root visiting marks)
        ((root, from_last (declared root).dependencies) ∷ []) finished
        (IsSearched-root marks root finished new s)
        (omega (
          arith,
          left-visit declared marks root visiting classes refl new registered,
          left-rounds_le marks classes,
          length-from_last (declared root).dependencies,
        ))

  -- All roots are visited where the search returns marks.
  abbrev Visits : List Class → (Class → Mark) → Type 0
  Visits roots marks =
      (result : Result (Class → Mark)) × (visit_roots declared classes (rounds declared classes)
          roots marks
        ≡ some result)
      × ((marks' : Class → Mark)
          → result ≡ ok marks'
          → ((finished : List Class) × IsSearched declared marks' [] finished)
            × IsLater marks marks'
            × ((c : Class) → mem c roots ≡ true → is_open (marks' c) ≡ false))

  pub visit_roots-pass :
      (root : Class) (roots : List Class) (marks : Class → Mark)
      → is_open (marks root) ≡ false
      → visit_roots declared classes (rounds declared classes) (root ∷ roots) marks
        ≡ visit_roots declared classes (rounds declared classes) roots marks
  unfolding visit_roots
  visit_roots-pass root roots marks shut = elim (Mark-cases (marks root)) [
    | inl e ↦ let shut' : true ≡ false = rw e at shut in absurd (cc shut')
    | inr (inl e) ↦ rw (e, visit_roots)
    | inr (inr e) ↦ rw (e, visit_roots)
  ]

  visit_roots-raise :
      (root : Class) (roots : List Class) (marks : Class → Mark) (e : Exception)
      → marks root ≡ unvisited
      → cycle_loop declared classes
          (rounds declared classes)
          (set_at root visiting marks)
          ((root, from_last (declared root).dependencies) ∷ [])
        ≡ some (raise e)
      → visit_roots declared classes (rounds declared classes) (root ∷ roots) marks ≡ some (raise e)
  unfolding visit_roots
  visit_roots-raise root roots marks e new run = rw (new, run, visit_roots)

  pub visit_roots-found :
      (root : Class) (roots : List Class) (marks marks' : Class → Mark)
      → marks root ≡ unvisited
      → cycle_loop declared classes
          (rounds declared classes)
          (set_at root visiting marks)
          ((root, from_last (declared root).dependencies) ∷ [])
        ≡ some (ok marks')
      → visit_roots declared classes (rounds declared classes) (root ∷ roots) marks
        ≡ visit_roots declared classes (rounds declared classes) roots marks'
  unfolding visit_roots
  visit_roots-found root roots marks marks' new run = rw (new, run, visit_roots)

  visit_roots-Visits :
      (roots : List Class) (marks : Class → Mark) (finished : List Class)
      → ((c : Class) → mem c roots ≡ true → mem c classes ≡ true)
      → IsSearched declared marks [] finished
      → Visits roots marks
  unfolding visit_roots set_at
  visit_roots-Visits [] marks finished there s = (
    ok marks,
    refl,
    (λ marks' h.
        let e : marks ≡ marks' = cc h in
        subst
          (λ x.
            ((finished : List Class) × IsSearched declared x [] finished)
            × IsLater marks x
            × ((c : Class) → mem c [] ≡ true → is_open (x c) ≡ false))
          e ((finished, s), (λ c shut. shut), (λ c none_there. absurd (cc none_there)))),
  )
  visit_roots-Visits (root ∷ roots) marks finished there s =
      let there' : (c : Class) → mem c roots ≡ true → mem c classes ≡ true =
        λ c h. there c (mem-tail c root roots h) in
      elim (Bool-cases (is_open (marks root))) [
        | inr shut ↦
            let (result, run, good) = visit_roots-Visits roots marks finished there' s in
            (
              result,
              visit_roots-pass root roots marks shut ∙ run,
              (λ marks' h.
                  let (found, later, all_shut) = good marks' h in
                  (
                    found,
                    later,
                    (λ c at. elim (mem-cons c root roots at) [
                      | inl same ↦ subst (λ x. is_open (marks' x) ≡ false) same (later root shut)
                      | inr further ↦ all_shut c further
                    ]),
                  )),
            )
        | inl fresh ↦
            let new = open_mark (marks root) fresh in
            let registered = there root (rw (test_self root) refl) in
            let (result, run, good) = search_root root marks finished new registered s in
            elim (Result-cases result) [
              | inr (e, h) ↦ (
                raise e,
                visit_roots-raise root roots marks e new (run ∙ ap some h),
                (λ marks' none_there. absurd (cc none_there)),
              )
              | inl (marks1, h) ↦
                  let ((finished1, s1), later1) = good marks1 h in
                  let (result', run', good') =
                    visit_roots-Visits roots marks1 finished1 there' s1 in
                  (
                    result',
                    visit_roots-found root roots marks marks1 new (run ∙ ap some h) ∙ run',
                    (λ marks' at_end.
                        let (found, later, all_shut) = good' marks' at_end in
                        (
                          found,
                          IsLater-set_at marks marks' root visiting refl
                              (λ c shut. later c (later1 c shut)),
                          (λ c at. elim (mem-cons c root roots at) [
                            | inl same ↦
                                subst (λ x. is_open (marks' x) ≡ false) same
                                  (later root (later1 root (rw (test_self root) refl)))
                            | inr further ↦ all_shut c further
                          ]),
                        )),
                  )
            ]
      ]

  -- The classes, in the order in which they were finished.
  pub validate_cycles-IsBuilt :
      (result : Result (Class → Mark)) × (validate_cycles declared classes ≡ some result)
      × ((marks : Class → Mark)
          → result ≡ ok marks
          → (finished : List Class) × IsBuilt declared [] finished
            × ((c : Class) → mem c classes ≡ true → mem c finished ≡ true))
  unfolding validate_cycles
  validate_cycles-IsBuilt =
      let nothing : IsSearched declared (λ _. unvisited) [] [] = record {
        marked = λ c. refl;
        built = tt;
        chained = tt;
        stacked_up = λ c h. absurd (cc h);
      } in
      let (result, run, good) = visit_roots-Visits classes (λ _. unvisited) [] (λ c h. h) nothing in
      (
        result,
        run,
        (λ marks h.
            let ((finished, s), _, shut) = good marks h in
            (
              finished,
              s.built,
              (λ c at. elim (Mark-cases (marks c)) [
                | inl e ↦
                    let shut' : is_open (marks c) ≡ false = shut c at in
                    let shut'' : true ≡ false = rw e at shut' in absurd (cc shut'')
                | inr (inl e) ↦ let there : mem c [] ≡ true = s.stacked_up c e in absurd (cc there)
                | inr (inr e) ↦ s.marked c ∙ ap is_finished e
              ]),
            )),
      )
