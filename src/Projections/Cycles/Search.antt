-- ===== src/Projections/Cycles/Search.antt =====
-- What the search for cycles has found out at each of its rounds (projections/registry.py).
use rationale_vault.Prelude.{
  true, false, Bool-cases, List, [], ◌∷◌, ◌++◌, map, ◌≡◌, refl, sym, ap, ◌∙◌, inl, inr, ◌⊎◌, All,
  ◌==◌,
}
use mathlib.Core.Path.{subst}
use rationale_vault.Projections.{Class, BaseProjection, mem, set_at}
use rationale_vault.Projections.Membership.{
  eq_of_test, test_self, test_comm, mem-cons, mem-tail, mem-snoc_self, mem-snoc_old, mem-snoc_ne,
}
use rationale_vault.Projections.Kahn.{IsBuilt, IsBuilt-snoc}
use rationale_vault.Projections.Cycles.{Mark, unvisited, visiting, visited, Stack, from_last}
use rationale_vault.Projections.Cycles.Visits.{is_finished, mem-from_last}

module _ (declared : Class → BaseProjection) where
  -- Every dependency of a class on the stack is finished, is still to be taken, or is what stands
  -- above the class on the stack.
  abbrev pub IsChained : List Class → List Class → Stack → Type 0
  IsChained finished above [] = Unit
  IsChained finished above ((c, children) ∷ stack) =
      ((d : Class)
        → mem d (declared c).dependencies ≡ true
        → (mem d finished ≡ true) ⊎ (mem d children ≡ true) ⊎ (mem d above ≡ true))
      × IsChained finished (c ∷ []) stack

  abbrev pub on_stack : Stack → List Class
  on_stack = map (λ e. e.0)

  -- The classes that are finished, in the order in which they were.
  pub record IsSearched (marks : Class → Mark) (stack : Stack) (finished : List Class)
      : Type 0 where
    pub marked : (c : Class) → mem c finished ≡ is_finished (marks c)
    pub built : IsBuilt declared [] finished
    pub chained : IsChained finished [] stack
    pub stacked_up : (c : Class) → marks c ≡ visiting → mem c (on_stack stack) ≡ true

  IsChained-more :
      (finished above : List Class) (c : Class) (stack : Stack)
      → IsChained finished above stack
      → IsChained (finished ++ c ∷ []) above stack
  IsChained-more finished above c [] chained = tt
  IsChained-more finished above c ((x, children) ∷ stack) chained = (
    (λ d h. elim (chained.0 d h) [
      | inl done ↦ inl (mem-snoc_old d c finished done)
      | inr other ↦ inr other
    ]),
    IsChained-more finished (x ∷ []) c stack chained.1,
  )

  -- A class that is finished may stand above the stack no longer.
  IsChained-finish :
      (finished above : List Class) (c : Class) (stack : Stack)
      → IsChained finished above stack
      → ((d : Class) → mem d above ≡ true → d ≡ c)
      → IsChained (finished ++ c ∷ []) [] stack
  IsChained-finish finished above c [] chained only = tt
  IsChained-finish finished above c ((x, children) ∷ stack) chained only = (
    (λ d h. elim (chained.0 d h) [
      | inl done ↦ inl (mem-snoc_old d c finished done)
      | inr (inl taken) ↦ inr (inl taken)
      | inr (inr top) ↦ inl (
          subst (λ y. mem y (finished ++ c ∷ []) ≡ true) (sym (only d top))
            (mem-snoc_self c finished))
    ]),
    IsChained-more finished (x ∷ []) c stack chained.1,
  )

  All-of_mem :
      (P : Class → Type 0) (xs : List Class) → ((d : Class) → mem d xs ≡ true → P d) → All P xs
  All-of_mem P [] h = tt
  All-of_mem P (x ∷ xs) h =
      (h x (rw (test_self x) refl), All-of_mem P xs (λ d there. h d (mem-tail d x xs there)))

  only_top : (c d : Class) → mem d (c ∷ []) ≡ true → d ≡ c
  only_top c d h = elim (mem-cons d c [] h) [ inl e ↦ sym e | inr no_more ↦ absurd (cc no_more) ]

  pub IsSearched-finish :
      (marks : Class → Mark) (curr : Class) (stack : Stack) (finished : List Class)
      → IsSearched marks ((curr, []) ∷ stack) finished
      → IsSearched (set_at curr visited marks) stack (finished ++ curr ∷ [])
  unfolding set_at
  IsSearched-finish marks curr stack finished s = record {
    marked = λ c. elim (Bool-cases (c == curr)) [
      | inl e ↦
          let same = eq_of_test c curr e in
          rw e (
            subst (λ x. mem x (finished ++ curr ∷ []) ≡ true) (sym same)
              (mem-snoc_self curr finished))
      | inr e ↦ rw e (mem-snoc_ne c curr finished (test_comm c curr e) ∙ s.marked c)
    ];
    built = IsBuilt-snoc declared [] finished curr s.built (
        All-of_mem _ (declared curr).dependencies (λ d h. elim (s.chained.0 d h) [
          | inl done ↦ done
          | inr (inl none_left) ↦ absurd (cc none_left)
          | inr (inr top) ↦ absurd (cc top)
        ]));
    chained = IsChained-finish finished (curr ∷ []) curr stack s.chained.1 (only_top curr);
    stacked_up = λ c h. elim (Bool-cases (c == curr)) [
      | inl e ↦ let h' : visited ≡ visiting = rw e at h in absurd (cc h')
      | inr e ↦
          let h' : marks c ≡ visiting = rw e at h in
          let there : mem c (curr ∷ on_stack stack) ≡ true = s.stacked_up c h' in
          let there' : mem c (on_stack stack) ≡ true = rw (test_comm c curr e) at there in there'
    ];
  }

  pub IsSearched-pass :
      (marks : Class → Mark) (curr next : Class) (children : List Class) (stack : Stack)
      (finished : List Class)
      → marks next ≡ visited
      → IsSearched marks ((curr, next ∷ children) ∷ stack) finished
      → IsSearched marks ((curr, children) ∷ stack) finished
  IsSearched-pass marks curr next children stack finished seen s = record {
    marked = s.marked;
    built = s.built;
    chained = (
      (λ d h. elim (s.chained.0 d h) [
        | inl done ↦ inl done
        | inr (inl taken) ↦ elim (mem-cons d next children taken) [
          | inl same ↦
              inl (subst (λ x. mem x finished ≡ true) same (s.marked next ∙ ap is_finished seen))
          | inr there ↦ inr (inl there)
        ]
        | inr (inr top) ↦ inr (inr top)
      ]),
      s.chained.1,
    );
    stacked_up = s.stacked_up;
  }

  pub IsSearched-push :
      (marks : Class → Mark) (curr next : Class) (children : List Class) (stack : Stack)
      (finished : List Class)
      → marks next ≡ unvisited
      → IsSearched marks ((curr, next ∷ children) ∷ stack) finished
      → IsSearched
          (set_at next visiting marks)
          ((next, from_last (declared next).dependencies) ∷ (curr, children) ∷ stack)
          finished
  unfolding set_at
  IsSearched-push marks curr next children stack finished new s = record {
    marked = λ c. elim (Bool-cases (c == next)) [
      | inl e ↦
          let same = eq_of_test c next e in
          rw e (subst (λ x. mem x finished ≡ false) (sym same) (s.marked next ∙ ap is_finished new))
      | inr e ↦ rw e (s.marked c)
    ];
    built = s.built;
    chained = (
      (λ d h. inr (inl (mem-from_last d (declared next).dependencies ∙ h))),
      (
        (λ d h. elim (s.chained.0 d h) [
          | inl done ↦ inl done
          | inr (inl taken) ↦ elim (mem-cons d next children taken) [
            | inl same ↦
                inr (inr (subst (λ x. mem x (next ∷ []) ≡ true) same (rw (test_self next) refl)))
            | inr there ↦ inr (inl there)
          ]
          | inr (inr top) ↦ absurd (cc top)
        ]),
        s.chained.1,
      ),
    );
    stacked_up = λ c h. elim (Bool-cases (c == next)) [
      | inl e ↦
          let same = eq_of_test c next e in
          subst (λ x. mem x (next ∷ curr ∷ on_stack stack) ≡ true) (sym same)
            (rw (test_self next) refl)
      | inr e ↦
          let h' : marks c ≡ visiting = rw e at h in
          mem-tail c next (curr ∷ on_stack stack) (s.stacked_up c h')
    ];
  }
