-- ===== src/Projections/Loop.antt =====
-- Rounds of the loop of `_compute_order` keep its state sound (projections/registry.py).
use rationale_vault.Prelude.{
  ℕ, suc, ◌+◌, ◌≤◌, true, false, not, Bool-cases, List, [], ◌∷◌, ◌++◌, ◌≡◌, refl, sym, ap, ◌∙◌, inl,
  inr, keep, length, length-append, ◌==◌, if◌then◌else◌, arith,
}
use mathlib.Core.Path.{subst}
use rationale_vault.Value.{ℤ, pos}
use rationale_vault.Projections.{
  Class, BaseProjection, mem, set_at, decremented, is_zero, release, sort_ready,
}
use rationale_vault.Projections.Membership.{
  occurs, eq_of_test, test_self, test_comm, mem-tail, mem-snoc, mem-snoc_self, mem-snoc_ne,
}
use rationale_vault.Projections.Sorted.{mem-sort_ready, IsDistinct-sort_ready}
use rationale_vault.Projections.Measure.{ℕ-cases, positives, positives-lowered, positives-ready}
use rationale_vault.Projections.Waiting.{
  waiting, IsSound, child-registered, child-degree, IsSound-lowered, IsSound-ready,
}

release-ready :
    (child : Class) (pending : List Class) (in_degree : Class → ℤ) (ready : List Class)
    → in_degree child ≡ pos 1
    → release (child ∷ pending) in_degree ready
      ≡ release pending (set_at child (pos 0) in_degree) (ready ++ child ∷ [])
unfolding release decremented is_zero
release-ready child pending in_degree ready h =
    ap
      (λ n.
        release pending (set_at child (decremented n) in_degree)
          (if is_zero (decremented n) then ready ++ child ∷ [] else ready))
      h

release-lowered :
    (child : Class) (pending : List Class) (in_degree : Class → ℤ) (ready : List Class) (m : ℕ)
    → in_degree child ≡ pos (suc (suc m))
    → release (child ∷ pending) in_degree ready
      ≡ release pending (set_at child (pos (suc m)) in_degree) ready
unfolding release decremented is_zero
release-lowered child pending in_degree ready m h =
    ap
      (λ n.
        release pending (set_at child (decremented n) in_degree)
          (if is_zero (decremented n) then ready ++ child ∷ [] else ready))
      h

module _ (declared : Class → BaseProjection) (classes : List Class) where
  -- The state of the loop is sound, and its measure within a bound.
  abbrev pub IsBounded : ℕ → (Class → ℤ) → List Class → List Class → List Class → Type 0
  IsBounded bound in_degree pending ready done =
      IsSound declared classes in_degree pending ready done
      × (length ready + positives in_degree classes ≤ bound)

  release_one :
      (bound : ℕ) (in_degree : Class → ℤ) (child : Class) (pending ready done : List Class)
      → IsBounded bound in_degree (child ∷ pending) ready done
      → (next : (Class → ℤ) × List Class) × (release (child ∷ pending) in_degree ready
          ≡ release pending next.0 next.1)
        × IsBounded bound next.0 pending next.1 done
  release_one bound in_degree child pending ready done (sound, within) =
      let n = waiting declared classes done child + occurs child pending in
      let degree = child-degree declared classes in_degree child pending ready done sound in
      let there = child-registered declared classes in_degree child pending ready done sound in
      elim (ℕ-cases n) [
        | inl e ↦
            let one : in_degree child ≡ pos 1 = degree ∙ ap (λ k. pos (suc k)) e in
            let next = IsSound-ready declared classes in_degree child pending ready done sound e in
            (
              (set_at child (pos 0) in_degree, ready ++ child ∷ []),
              release-ready child pending in_degree ready one,
              (
                subst
                    (λ k.
                      IsSound declared classes (set_at child (pos k) in_degree) pending
                        (ready ++ child ∷ []) done)
                    e next,
                omega (
                  arith,
                  within,
                  positives-ready in_degree child classes one there,
                  length-append ready (child ∷ []),
                ),
              ),
            )
        | inr (m, e) ↦
            let more : in_degree child ≡ pos (suc (suc m)) = degree ∙ ap (λ k. pos (suc k)) e in
            let next =
              IsSound-lowered declared classes in_degree child pending ready done sound m e in
            (
              (set_at child (pos (suc m)) in_degree, ready),
              release-lowered child pending in_degree ready m more,
              (
                subst
                    (λ k.
                      IsSound declared classes (set_at child (pos k) in_degree) pending ready done)
                    e next,
                omega (arith, within, positives-lowered in_degree child (suc m) classes more),
              ),
            )
      ]

  -- The dependents of a class are released one by one.
  pub release-IsBounded :
      (bound : ℕ) (pending : List Class) (in_degree : Class → ℤ) (ready done : List Class)
      → IsBounded bound in_degree pending ready done
      → IsBounded bound
          (release pending in_degree ready).0
          []
          (release pending in_degree ready).1
          done
  unfolding release
  release-IsBounded bound [] in_degree ready done sound = sound
  release-IsBounded bound (child ∷ pending) in_degree ready done sound =
      let (next, same, sound') = release_one bound in_degree child pending ready done sound in
      subst (λ (x : (Class → ℤ) × List Class). IsBounded bound x.0 [] x.1 done) (sym same)
        (release-IsBounded bound pending next.0 next.1 done sound')

  pub sort-IsSound :
      (in_degree : Class → ℤ) (ready done : List Class)
      → IsSound declared classes in_degree [] ready done
      → IsSound declared classes in_degree [] (sort_ready declared ready) done
  sort-IsSound in_degree ready done sound =
      let back : (c : Class) → mem c (sort_ready declared ready) ≡ true → mem c ready ≡ true =
        λ c h. sym (mem-sort_ready declared c ready) ∙ h in
      record {
        counted = sound.counted;
        registered = sound.registered;
        ready_zero = λ c h. sound.ready_zero c (back c h);
        ready_registered = λ c h. sound.ready_registered c (back c h);
        ready_new = λ c h. sound.ready_new c (back c h);
        distinct = IsDistinct-sort_ready declared ready sound.distinct;
        done_zero = sound.done_zero;
        reached = λ c h z undone. mem-sort_ready declared c ready ∙ sound.reached c h z undone;
      }

  -- A class that is done is waited for no longer.
  waiting-done :
      (curr : Class) (done deps : List Class)
      → mem curr done ≡ false
      → length (keep (λ d. not (mem d done)) deps)
        ≡ length (keep (λ d. not (mem d (done ++ curr ∷ []))) deps) + occurs curr deps
  waiting-done curr done [] h = omega arith
  waiting-done curr done (d ∷ deps) h = elim (Bool-cases (d == curr)) [
    | inl e ↦
        let same = eq_of_test d curr e in
        let now : mem d (done ++ curr ∷ []) ≡ true =
          subst (λ x. mem x (done ++ curr ∷ []) ≡ true) (sym same) (mem-snoc_self curr done) in
        let before : mem d done ≡ false = subst (λ x. mem x done ≡ false) (sym same) h in
        rw (now, before, e) (omega (arith, waiting-done curr done deps h))
    | inr e ↦
        let now : mem d (done ++ curr ∷ []) ≡ mem d done =
          mem-snoc_ne d curr done (test_comm d curr e) in
        elim (Bool-cases (mem d done)) [
          | inl b ↦ rw (now, b, e) (waiting-done curr done deps h)
          | inr b ↦ rw (now, b, e) (omega (arith, waiting-done curr done deps h))
        ]
  ]

  -- The first ready class goes to the order, and its dependents are to be released.
  pub pop-IsSound :
      (in_degree : Class → ℤ) (curr : Class) (rest done children : List Class)
      → ((c : Class)
          → occurs c children
            ≡ (if mem c classes then occurs curr (declared c).dependencies else 0))
      → IsSound declared classes in_degree [] (curr ∷ rest) done
      → IsSound declared classes in_degree children rest (done ++ curr ∷ [])
  pop-IsSound in_degree curr rest done children edges sound =
      let curr_new : mem curr done ≡ false = sound.ready_new curr (rw (test_self curr) refl) in
      record {
        counted = λ c h.
            let edge : occurs c children ≡ occurs curr (declared c).dependencies =
              edges c ∙ rw h refl in
            sound.counted c h
            ∙ ap pos
                (omega (arith, edge, waiting-done curr done (declared c).dependencies curr_new));
        registered = λ c h. edges c ∙ rw h refl;
        ready_zero = λ c h. sound.ready_zero c (mem-tail c curr rest h);
        ready_registered = λ c h. sound.ready_registered c (mem-tail c curr rest h);
        ready_new = λ c h. elim (Bool-cases (curr == c)) [
          | inl e ↦
              let same = eq_of_test curr c e in
              let there : mem curr rest ≡ true = subst (λ x. mem x rest ≡ true) (sym same) h in
              absurd (cc (there, sound.distinct.0))
          | inr e ↦ mem-snoc_ne c curr done e ∙ sound.ready_new c (mem-tail c curr rest h)
        ];
        distinct = sound.distinct.1;
        done_zero = λ c h. elim (mem-snoc c curr done h) [
          | inl same ↦
              subst (λ x. in_degree x ≡ pos 0) same
                (sound.ready_zero curr (rw (test_self curr) refl))
          | inr there ↦ sound.done_zero c there
        ];
        reached = λ c h z undone. elim (Bool-cases (curr == c)) [
          | inl e ↦
              let same = eq_of_test curr c e in
              let there : mem c (done ++ curr ∷ []) ≡ true =
                subst (λ x. mem x (done ++ curr ∷ []) ≡ true) same (mem-snoc_self curr done) in
              absurd (cc (there, undone))
          | inr e ↦
              let undone' : mem c done ≡ false = sym (mem-snoc_ne c curr done e) ∙ undone in
              let there : mem c (curr ∷ rest) ≡ true = sound.reached c h z undone' in
              let there' : mem c rest ≡ true = rw e at there in there'
        ];
      }
