-- ===== src/Projections/Cycles/Rounds.antt =====
-- The search for cycles over all its rounds (projections/registry.py).
use rationale_vault.Prelude.{
  ℕ, zero, suc, ◌+◌, ◌≤◌, true, false, Bool-cases, some, List, [], ◌∷◌, ◌++◌, Result, ok, raise,
  key_error, circular_dependency, ◌≡◌, refl, ◌∙◌, inl, inr, ◌==◌, arith, Exception,
}
use mathlib.Core.Path.{subst}
use rationale_vault.Projections.{Class, BaseProjection, mem, set_at}
use rationale_vault.Projections.Cycles.{
  Mark, unvisited, visiting, visited, Stack, from_last, cycle_loop,
}
use rationale_vault.Projections.Cycles.Visits.{
  Mark-cases, is_open, length-from_last, stacked, left, left-set_at, left-visit,
}
use rationale_vault.Projections.Cycles.Search.{
  IsSearched, IsSearched-finish, IsSearched-pass, IsSearched-push,
}

-- No class is unvisited again.
abbrev pub IsLater : (Class → Mark) → (Class → Mark) → Type 0
IsLater marks marks' = (c : Class) → is_open (marks c) ≡ false → is_open (marks' c) ≡ false

pub IsLater-set_at :
    (marks marks' : Class → Mark) (k : Class) (m : Mark)
    → is_open m ≡ false
    → IsLater (set_at k m marks) marks'
    → IsLater marks marks'
unfolding set_at
IsLater-set_at marks marks' k m shut later c h =
    later c (elim (Bool-cases (c == k)) [ inl e ↦ rw e shut | inr e ↦ rw e h ])

module _ (declared : Class → BaseProjection) (classes : List Class) where
  -- What holds of the marks that a search returns, if it returns any.
  abbrev pub IsFruitful : (Class → Mark) → Result (Class → Mark) → Type 0
  IsFruitful marks result =
      (marks' : Class → Mark)
      → result ≡ ok marks'
      → ((finished : List Class) × IsSearched declared marks' [] finished) × IsLater marks marks'

  abbrev pub Searches : ℕ → (Class → Mark) → Stack → Type 0
  Searches fuel marks stack =
      (result : Result (Class → Mark)) × (cycle_loop declared classes fuel marks stack
        ≡ some result)
      × IsFruitful marks result

  pub fruitless : (marks : Class → Mark) (e : Exception) → IsFruitful marks (raise e)
  fruitless marks e marks' h = absurd (cc h)

  pub cycle_loop-pass :
      (fuel : ℕ) (marks : Class → Mark) (curr next : Class) (children : List Class) (stack : Stack)
      → mem next classes ≡ true
      → marks next ≡ visited
      → cycle_loop declared classes (suc fuel) marks ((curr, next ∷ children) ∷ stack)
        ≡ cycle_loop declared classes fuel marks ((curr, children) ∷ stack)
  unfolding cycle_loop
  cycle_loop-pass fuel marks curr next children stack there seen = rw (there, seen, cycle_loop)

  pub cycle_loop-push :
      (fuel : ℕ) (marks : Class → Mark) (curr next : Class) (children : List Class) (stack : Stack)
      → mem next classes ≡ true
      → marks next ≡ unvisited
      → cycle_loop declared classes (suc fuel) marks ((curr, next ∷ children) ∷ stack)
        ≡ cycle_loop declared classes fuel
            (set_at next visiting marks)
            ((next, from_last (declared next).dependencies) ∷ (curr, children) ∷ stack)
  unfolding cycle_loop
  cycle_loop-push fuel marks curr next children stack there new = rw (there, new, cycle_loop)

  pub cycle_loop-Searches :
      (fuel : ℕ) (marks : Class → Mark) (stack : Stack) (finished : List Class)
      → IsSearched declared marks stack finished
      → stacked stack + left declared marks classes ≤ fuel
      → Searches fuel marks stack
  unfolding cycle_loop
  cycle_loop-Searches fuel marks [] finished s bound = (
    ok marks,
    refl,
    (λ marks' h.
        let e : marks ≡ marks' = cc h in
        subst (λ x. ((finished : List Class) × IsSearched declared x [] finished) × IsLater marks x)
          e ((finished, s), (λ c shut. shut))),
  )
  cycle_loop-Searches zero marks ((curr, children) ∷ stack) finished s bound =
      absurd (omega (arith, bound))
  cycle_loop-Searches (suc fuel) marks ((curr, []) ∷ stack) finished s bound =
      let (result, run, good) =
        cycle_loop-Searches fuel (set_at curr visited marks) stack (finished ++ curr ∷ [])
          (IsSearched-finish declared marks curr stack finished s)
          (omega (arith, bound, left-set_at declared marks curr visited classes refl)) in
      (
        result,
        run,
        (λ marks' h.
            let (found, later) = good marks' h in
            (found, IsLater-set_at marks marks' curr visited refl later)),
      )
  cycle_loop-Searches (suc fuel) marks ((curr, next ∷ children) ∷ stack) finished s bound =
      elim (Bool-cases (mem next classes)) [
        | inr absent ↦ (raise key_error, rw absent refl, fruitless marks key_error)
        | inl there ↦ elim (Mark-cases (marks next)) [
          | inr (inl again) ↦ (
            raise circular_dependency,
            rw (there, again) refl,
            fruitless marks circular_dependency,
          )
          | inr (inr seen) ↦
              let (result, run, good) =
                cycle_loop-Searches fuel marks ((curr, children) ∷ stack) finished
                  (IsSearched-pass declared marks curr next children stack finished seen s)
                  (omega (arith, bound)) in
              (result, rw (there, seen) run, good)
          | inl new ↦
              let (result, run, good) =
                cycle_loop-Searches fuel (set_at next visiting marks)
                  ((next, from_last (declared next).dependencies) ∷ (curr, children) ∷ stack)
                  finished (IsSearched-push declared marks curr next children stack finished new s)
                  (omega (
                    arith,
                    bound,
                    left-visit declared marks next visiting classes refl new there,
                    length-from_last (declared next).dependencies,
                  )) in
              (
                result,
                cycle_loop-push fuel marks curr next children stack there new ∙ run,
                (λ marks' h.
                    let (found, later) = good marks' h in
                    (found, IsLater-set_at marks marks' next visiting refl later)),
              )
        ]
      ]
