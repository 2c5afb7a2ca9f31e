-- ===== src/Projections/Cycles/Accepts.antt =====
-- Where the dependencies have a ranking, the search finds no cycle (projections/registry.py).
use rationale_vault.Prelude.{
  ℕ, zero, suc, ◌<◌, true, Bool-cases, some, List, [], ◌∷◌, ◌++◌, Result-cases, raise, Exception,
  ◌≡◌, refl, sym, ap, ◌∙◌, inl, inr, All, All-imp, arith,
}
use rationale_vault.Projections.{Class, BaseProjection, mem, set_at}
use rationale_vault.Projections.Membership.{test_self, mem-cons, mem-tail}
use rationale_vault.Projections.Order.{mem-All}
use rationale_vault.Projections.Cycles.{
  Mark, unvisited, visiting, visited, Stack, from_last, cycle_loop, visit_roots, rounds,
  validate_cycles,
}
use rationale_vault.Projections.Cycles.Visits.{Mark-cases, is_open, mem-from_last}
use rationale_vault.Projections.Cycles.Roots.{
  open_mark, IsSearched-root, search_root, visit_roots-pass, visit_roots-found,
}
use rationale_vault.Projections.Cycles.Search.{
  IsSearched, on_stack, IsSearched-finish, IsSearched-pass, IsSearched-push,
}
use rationale_vault.Projections.Cycles.Rounds.{cycle_loop-pass, cycle_loop-push}

module _ (declared : Class → BaseProjection) (classes : List Class) (rank : Class → ℕ)
    (there : All (λ cls. All (λ dep. mem dep classes ≡ true) (declared cls).dependencies) classes)
    (lower : (c d : Class)
      → mem c classes ≡ true
      → mem d (declared c).dependencies ≡ true
      → rank d < rank c) where
  -- What stands on the stack has a higher rank than what stands above it, and than its children, which
  -- are registered.
  abbrev pub IsRising : Stack → Type 0
  IsRising [] = Unit
  IsRising ((c, children) ∷ stack) =
      ((d : Class) → mem d children ≡ true → (rank d < rank c) × (mem d classes ≡ true))
      × All (λ e. rank c < rank e) (on_stack declared stack)
      × IsRising stack

  IsRising-push :
      (curr next : Class) (children : List Class) (stack : Stack)
      → IsRising ((curr, next ∷ children) ∷ stack)
      → IsRising ((next, from_last (declared next).dependencies) ∷ (curr, children) ∷ stack)
  IsRising-push curr next children stack (taken, above, rising) =
      let (less, registered) = taken next (rw (test_self next) refl) in
      (
        (λ d h.
            let dep : mem d (declared next).dependencies ≡ true =
              sym (mem-from_last d (declared next).dependencies) ∙ h in
            (
              lower next d registered dep,
              mem-All _ d (declared next).dependencies (mem-All _ next classes there registered)
                  dep,
            )),
        (less, All-imp _ _ (λ e h. omega (arith, h, less)) (on_stack declared stack) above),
        ((λ d h. taken d (mem-tail d next children h)), above, rising),
      )

  never_visiting :
      (marks : Class → Mark) (curr next : Class) (children : List Class) (stack : Stack)
      (finished : List Class)
      → IsSearched declared marks ((curr, next ∷ children) ∷ stack) finished
      → IsRising ((curr, next ∷ children) ∷ stack)
      → ¬ (marks next ≡ visiting)
  never_visiting marks curr next children stack finished s (taken, above, rising) again =
      let (less, _) = taken next (rw (test_self next) refl) in
      elim (mem-cons next curr (on_stack declared stack) (s.stacked_up next again)) [
        | inl same ↦ let equal : rank curr ≡ rank next = ap rank same in omega (arith, less, equal)
        | inr below ↦
            let more : rank curr < rank next =
              mem-All (λ e. rank curr < rank e) next (on_stack declared stack) above below in
            omega (arith, less, more)
      ]

  pub cycle_loop-accepts :
      (fuel : ℕ) (marks : Class → Mark) (stack : Stack) (finished : List Class)
      → IsSearched declared marks stack finished
      → IsRising stack
      → (e : Exception) → ¬ (cycle_loop declared classes fuel marks stack ≡ some (raise e))
  unfolding cycle_loop
  cycle_loop-accepts fuel marks [] finished s rising e h = cc h
  cycle_loop-accepts zero marks (top ∷ stack) finished s rising e h = cc h
  cycle_loop-accepts (suc fuel) marks ((curr, []) ∷ stack) finished s rising e h =
      cycle_loop-accepts fuel (set_at curr visited marks) stack (finished ++ curr ∷ [])
        (IsSearched-finish declared marks curr stack finished s) rising.2 e h
  cycle_loop-accepts (suc fuel) marks ((curr, next ∷ children) ∷ stack) finished s rising e h =
      let registered = (rising.0 next (rw (test_self next) refl)).1 in
      elim (Mark-cases (marks next)) [
        | inr (inl again) ↦ never_visiting marks curr next children stack finished s rising again
        | inr (inr seen) ↦
            let h' : cycle_loop declared classes fuel marks ((curr, children) ∷ stack)
                ≡ some (raise e) =
              sym (
                cycle_loop-pass declared classes fuel marks curr next children stack registered
                  seen)
              ∙ h in
            cycle_loop-accepts fuel marks ((curr, children) ∷ stack) finished
              (IsSearched-pass declared marks curr next children stack finished seen s)
              ((λ d t. rising.0 d (mem-tail d next children t)), rising.1, rising.2) e h'
        | inl new ↦
            cycle_loop-accepts fuel (set_at next visiting marks)
              ((next, from_last (declared next).dependencies) ∷ (curr, children) ∷ stack) finished
              (IsSearched-push declared marks curr next children stack finished new s)
              (IsRising-push curr next children stack rising) e
              (sym (
                  cycle_loop-push declared classes fuel marks curr next children stack registered
                    new)
                ∙ h)
      ]

  IsRising-root :
      (root : Class)
      → mem root classes ≡ true
      → IsRising ((root, from_last (declared root).dependencies) ∷ [])
  IsRising-root root registered = (
    (λ d h.
        let dep : mem d (declared root).dependencies ≡ true =
          sym (mem-from_last d (declared root).dependencies) ∙ h in
        (
          lower root d registered dep,
          mem-All _ d (declared root).dependencies (mem-All _ root classes there registered) dep,
        )),
    tt,
    tt,
  )

  visit_roots-accepts :
      (roots : List Class) (marks : Class → Mark) (finished : List Class)
      → ((c : Class) → mem c roots ≡ true → mem c classes ≡ true)
      → IsSearched declared marks [] finished
      → (e : Exception)
      → ¬ (visit_roots declared classes (rounds declared classes) roots marks ≡ some (raise e))
  unfolding visit_roots
  visit_roots-accepts [] marks finished known s e h = cc h
  visit_roots-accepts (root ∷ roots) marks finished known s e h =
      let known' : (c : Class) → mem c roots ≡ true → mem c classes ≡ true =
        λ c at. known c (mem-tail c root roots at) in
      let registered = known root (rw (test_self root) refl) in
      elim (Bool-cases (is_open (marks root))) [
        | inr shut ↦
            visit_roots-accepts roots marks finished known' s e
              (sym (visit_roots-pass declared classes root roots marks shut) ∙ h)
        | inl fresh ↦
            let new = open_mark (marks root) fresh in
            let (result, run, good) =
              search_root declared classes root marks finished new registered s in
            elim (Result-cases result) [
              | inr (x, f) ↦
                  cycle_loop-accepts (rounds declared classes) (set_at root visiting marks)
                    ((root, from_last (declared root).dependencies) ∷ []) finished
                    (IsSearched-root declared classes marks root finished new s)
                    (IsRising-root root registered) x (run ∙ ap some f)
              | inl (marks1, f) ↦
                  let ((finished1, s1), _) = good marks1 f in
                  visit_roots-accepts roots marks1 finished1 known' s1 e (
                    sym (
                      visit_roots-found declared classes root roots marks marks1 new
                        (run ∙ ap some f))
                    ∙ h)
            ]
      ]

  pub validate_cycles-accepts :
      (e : Exception) → ¬ (validate_cycles declared classes ≡ some (raise e))
  unfolding validate_cycles
  validate_cycles-accepts e h =
      visit_roots-accepts classes (λ _. unvisited) [] (λ c at. at)
        (record {
          marked = λ c. refl;
          built = tt;
          chained = tt;
          stacked_up = λ c seen. absurd (cc seen);
        })
        e h
