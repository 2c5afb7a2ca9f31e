-- ===== src/Projections/Kahn.antt =====
-- The loop of `_compute_order` over all its rounds (projections/registry.py).
use rationale_vault.Prelude.{
  ℕ, zero, suc, ◌+◌, true, not, Bool-cases, some, List, [], ◌∷◌, ◌++◌, ◌≡◌, refl, sym, ap, ◌∙◌, inl,
  inr, ◌⊎◌, All, All-imp, keep, length, if◌then◌else◌, arith,
}
use mathlib.Core.List.{append_assoc, append-nil}
use mathlib.Core.Path.{subst}
use rationale_vault.Value.{ℤ, pos}
use rationale_vault.Projections.{Class, BaseProjection, mem, release, sort_ready, order_loop}
use rationale_vault.Projections.Membership.{
  occurs, IsDistinct, IsDistinct-snoc, test_self, mem-snoc,
}
use rationale_vault.Projections.Sorted.{length-sort_ready}
use rationale_vault.Projections.Waiting.{waiting, IsSound}
use rationale_vault.Projections.Loop.{IsBounded, release-IsBounded, sort-IsSound, pop-IsSound}

list-cases : (xs : List Class) → (xs ≡ []) ⊎ ((c : Class) × (rest : List Class) × (xs ≡ c ∷ rest))
list-cases [] = inl refl
list-cases (c ∷ rest) = inr (c, rest, refl)

keep-none_left :
    (done deps : List Class)
    → length (keep (λ d. not (mem d done)) deps) ≡ 0
    → All (λ d. mem d done ≡ true) deps
keep-none_left done [] h = tt
keep-none_left done (d ∷ deps) h = elim (Bool-cases (mem d done)) [
  | inl e ↦
      let h' : length (keep (λ d. not (mem d done)) deps) ≡ 0 = rw e at h in
      (e, keep-none_left done deps h')
  | inr e ↦
      let h' : suc (length (keep (λ d. not (mem d done)) deps)) ≡ 0 = rw e at h in
      absurd (omega (arith, h'))
]

module _ (declared : Class → BaseProjection) where
  -- Each class of the order has its dependencies before it.
  abbrev pub IsBuilt : List Class → List Class → Type 0
  IsBuilt before [] = Unit
  IsBuilt before (c ∷ order) =
      All (λ d. mem d before ≡ true) (declared c).dependencies × IsBuilt (before ++ c ∷ []) order

  pub IsBuilt-snoc :
      (before order : List Class) (c : Class)
      → IsBuilt before order
      → All (λ d. mem d (before ++ order) ≡ true) (declared c).dependencies
      → IsBuilt before (order ++ c ∷ [])
  IsBuilt-snoc before [] c built deps = (
    All-imp _ _ (λ d h. subst (λ xs. mem d xs ≡ true) (append-nil before) h)
        (declared c).dependencies deps,
    tt,
  )
  IsBuilt-snoc before (x ∷ order) c built deps = (
    built.0,
    IsBuilt-snoc (before ++ x ∷ []) order c built.1 (
        All-imp _ _
          (λ d h. subst (λ xs. mem d xs ≡ true) (sym (append_assoc before (x ∷ []) order)) h)
          (declared c).dependencies deps),
  )

  order_loop-step :
      (fuel : ℕ) (adj : Class → List Class) (in_degree : Class → ℤ) (c curr : Class)
      (ready rest order : List Class)
      → sort_ready declared (c ∷ ready) ≡ curr ∷ rest
      → order_loop declared (suc fuel) adj in_degree (c ∷ ready) order
        ≡ order_loop declared fuel adj
            (release (adj curr) in_degree rest).0
            (release (adj curr) in_degree rest).1
            (order ++ curr ∷ [])
  unfolding order_loop
  order_loop-step fuel adj in_degree c curr ready rest order e = rw (e, order_loop)

  module _ (classes : List Class) where
    -- What holds of the order so far.
    abbrev pub IsGood : List Class → Type 0
    IsGood order =
        IsBuilt [] order
        × IsDistinct order
        × ((c : Class) → mem c order ≡ true → mem c classes ≡ true)

    snoc-IsGood :
        (in_degree : Class → ℤ) (curr : Class) (rest order : List Class)
        → IsSound declared classes in_degree [] (curr ∷ rest) order
        → IsGood order
        → IsGood (order ++ curr ∷ [])
    snoc-IsGood in_degree curr rest order sound (built, distinct, within) =
        let here : mem curr (curr ∷ rest) ≡ true = rw (test_self curr) refl in
        let there : mem curr classes ≡ true = sound.ready_registered curr here in
        let none_left : pos (waiting declared classes order curr + 0) ≡ pos 0 =
          sym (sound.counted curr there) ∙ sound.ready_zero curr here in
        let zero_left : waiting declared classes order curr + 0 ≡ 0 = cc none_left in
        (
          IsBuilt-snoc [] order curr built
              (keep-none_left order (declared curr).dependencies (omega (arith, zero_left))),
          IsDistinct-snoc curr order distinct (sound.ready_new curr here),
          (λ c h. elim (mem-snoc c curr order h) [
            | inl same ↦ subst (λ x. mem x classes ≡ true) same there
            | inr old ↦ within c old
          ]),
        )

    -- The loop ends within the fuel, in a sound state with nothing ready.
    abbrev pub Ends : ℕ → (Class → List Class) → (Class → ℤ) → List Class → List Class → Type 0
    Ends fuel adj in_degree ready order =
        (order' : List Class) × (order_loop declared fuel adj in_degree ready order ≡ some order')
        × IsGood order'
        × ((in_degree' : Class → ℤ) × IsSound declared classes in_degree' [] [] order')

    pub order_loop-Ends :
        (adj : Class → List Class)
        → ((d c : Class)
            → occurs c (adj d) ≡ (if mem c classes then occurs d (declared c).dependencies else 0))
        → (fuel : ℕ) (in_degree : Class → ℤ) (ready order : List Class)
        → IsBounded declared classes fuel in_degree [] ready order
        → IsGood order
        → Ends fuel adj in_degree ready order
    unfolding order_loop
    order_loop-Ends adj edges zero in_degree [] order (sound, within) good =
        (order, refl, good, (in_degree, sound))
    order_loop-Ends adj edges (suc fuel) in_degree [] order (sound, within) good =
        (order, refl, good, (in_degree, sound))
    order_loop-Ends adj edges zero in_degree (c ∷ ready) order (sound, within) good =
        absurd (omega (arith, within))
    order_loop-Ends adj edges (suc fuel) in_degree (c ∷ ready) order (sound, within) good =
        elim (list-cases (sort_ready declared (c ∷ ready))) [
          | inl e ↦
              let none_there : 0 ≡ suc (length ready) =
                ap length (sym e) ∙ length-sort_ready declared (c ∷ ready) in
              absurd (omega (arith, none_there))
          | inr (curr, rest, e) ↦
              let long : suc (length rest) ≡ suc (length ready) =
                ap length (sym e) ∙ length-sort_ready declared (c ∷ ready) in
              let sorted : IsSound declared classes in_degree [] (curr ∷ rest) order =
                subst (λ xs. IsSound declared classes in_degree [] xs order) e
                  (sort-IsSound declared classes in_degree (c ∷ ready) order sound) in
              let popped =
                pop-IsSound declared classes in_degree curr rest order (adj curr) (edges curr)
                  sorted in
              let released =
                release-IsBounded declared classes fuel (adj curr) in_degree rest
                  (order ++ curr ∷ []) (popped, omega (arith, within, long)) in
              let (order', run, good', final) =
                order_loop-Ends adj edges fuel (release (adj curr) in_degree rest).0
                  (release (adj curr) in_degree rest).1 (order ++ curr ∷ []) released
                  (snoc-IsGood in_degree curr rest order sorted good) in
              (
                order',
                order_loop-step fuel adj in_degree c curr ready rest order e ∙ run,
                good',
                final,
              )
        ]
