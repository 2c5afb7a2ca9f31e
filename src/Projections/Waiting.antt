-- ===== src/Projections/Waiting.antt =====
-- What holds between in-degrees, ready classes and the order in the loops of `_compute_order`
-- (projections/registry.py).
use rationale_vault.Prelude.{
  ℕ, suc, ◌+◌, true, false, not, Bool-cases, List, [], ◌∷◌, ◌++◌, ◌≡◌, refl, sym, ap, ◌∙◌, inl, inr,
  keep, length, ◌==◌, arith,
}
use mathlib.Core.Path.{subst}
use rationale_vault.Value.{ℤ, pos}
use rationale_vault.Projections.{Class, BaseProjection, mem, set_at}
use rationale_vault.Projections.Membership.{
  occurs, IsDistinct, eq_of_test, test_self, test_comm, mem-snoc, mem-snoc_self, mem-snoc_old,
  IsDistinct-snoc,
}

module _ (declared : Class → BaseProjection) (classes : List Class) where
  -- How many dependencies of a class are not yet done.
  abbrev pub waiting : List Class → Class → ℕ
  waiting done c = length (keep (λ d. not (mem d done)) (declared c).dependencies)

  -- The state of the loop, `pending` being the dependents of the last class done that are still to be
  -- released.
  pub record IsSound (in_degree : Class → ℤ) (pending ready done : List Class) : Type 0 where
    pub counted :
        (c : Class) → mem c classes ≡ true → in_degree c ≡ pos (waiting done c + occurs c pending)
    pub registered : (c : Class) → mem c classes ≡ false → occurs c pending ≡ 0
    pub ready_zero : (c : Class) → mem c ready ≡ true → in_degree c ≡ pos 0
    pub ready_registered : (c : Class) → mem c ready ≡ true → mem c classes ≡ true
    pub ready_new : (c : Class) → mem c ready ≡ true → mem c done ≡ false
    pub distinct : IsDistinct ready
    pub done_zero : (c : Class) → mem c done ≡ true → in_degree c ≡ pos 0
    pub reached :
        (c : Class)
        → mem c classes ≡ true
        → in_degree c ≡ pos 0
        → mem c done ≡ false
        → mem c ready ≡ true

  module _ (in_degree : Class → ℤ) (child : Class) (pending ready done : List Class)
      (sound : IsSound in_degree (child ∷ pending) ready done) where
    pub child-registered : mem child classes ≡ true
    child-registered = elim (Bool-cases (mem child classes)) [
      | inl e ↦ e
      | inr e ↦
          let more : occurs child (child ∷ pending) ≡ suc (occurs child pending) =
            rw (test_self child) refl in
          absurd (omega (arith, sound.registered child e, more))
    ]

    pub child-degree : in_degree child ≡ pos (suc (waiting done child + occurs child pending))
    child-degree =
        sound.counted child child-registered
        ∙ ap pos (
            let more : occurs child (child ∷ pending) ≡ suc (occurs child pending) =
              rw (test_self child) refl in
            omega (arith, more))

    -- What is at zero is not the child, and stays at zero.
    zero-other : (c : Class) → in_degree c ≡ pos 0 → (c == child) ≡ false
    zero-other c h = elim (Bool-cases (c == child)) [
      | inr e ↦ e
      | inl e ↦
          let same = eq_of_test c child e in
          let h' : in_degree child ≡ pos 0 = subst (λ x. in_degree x ≡ pos 0) same h in
          absurd (cc (h', child-degree))
    ]

    abbrev pub lowered : Class → ℤ
    lowered = set_at child (pos (waiting done child + occurs child pending)) in_degree

    zero-stays : (c : Class) → in_degree c ≡ pos 0 → lowered c ≡ pos 0
    unfolding set_at
    zero-stays c h = rw (zero-other c h) h

    lowered-counted :
        (c : Class) → mem c classes ≡ true → lowered c ≡ pos (waiting done c + occurs c pending)
    unfolding set_at
    lowered-counted c h = elim (Bool-cases (c == child)) [
      | inl e ↦ let same = eq_of_test c child e in rw (e, same) refl
      | inr e ↦
          let less : occurs c (child ∷ pending) ≡ occurs c pending =
            rw (test_comm c child e) refl in
          rw e (sound.counted c h ∙ ap (λ n. pos (waiting done c + n)) less)
    ]

    pending-registered : (c : Class) → mem c classes ≡ false → occurs c pending ≡ 0
    pending-registered c h = ground (arith, sound.registered c h)

    child-new : mem child ready ≡ false
    child-new = elim (Bool-cases (mem child ready)) [
      | inr e ↦ e
      | inl e ↦ absurd (cc (sound.ready_zero child e, child-degree))
    ]

    child-open : mem child done ≡ false
    child-open = elim (Bool-cases (mem child done)) [
      | inr e ↦ e
      | inl e ↦ absurd (cc (sound.done_zero child e, child-degree))
    ]

    -- The child still waits.
    pub IsSound-lowered :
        (n : ℕ)
        → waiting done child + occurs child pending ≡ suc n
        → IsSound lowered pending ready done
    unfolding set_at
    IsSound-lowered n more = record {
      counted = lowered-counted;
      registered = pending-registered;
      ready_zero = λ c h. zero-stays c (sound.ready_zero c h);
      ready_registered = sound.ready_registered;
      ready_new = sound.ready_new;
      distinct = sound.distinct;
      done_zero = λ c h. zero-stays c (sound.done_zero c h);
      reached = λ c h z undone. elim (Bool-cases (c == child)) [
        | inl e ↦
            let z' : pos (waiting done child + occurs child pending) ≡ pos 0 = rw e at z in
            let z'' : pos (suc n) ≡ pos 0 = rw more at z' in absurd (cc z'')
        | inr e ↦ let z' : in_degree c ≡ pos 0 = rw e at z in sound.reached c h z' undone
      ];
    }

    -- The child waits for nothing more, and is ready.
    pub IsSound-ready :
        waiting done child + occurs child pending ≡ 0
        → IsSound lowered pending (ready ++ child ∷ []) done
    unfolding set_at
    IsSound-ready none_left = record {
      counted = lowered-counted;
      registered = pending-registered;
      ready_zero = λ c h. elim (mem-snoc c child ready h) [
        | inl same ↦ subst (λ x. lowered x ≡ pos 0) same (rw (test_self child) (ap pos none_left))
        | inr there ↦ zero-stays c (sound.ready_zero c there)
      ];
      ready_registered = λ c h. elim (mem-snoc c child ready h) [
        | inl same ↦ subst (λ x. mem x classes ≡ true) same child-registered
        | inr there ↦ sound.ready_registered c there
      ];
      ready_new = λ c h. elim (mem-snoc c child ready h) [
        | inl same ↦ subst (λ x. mem x done ≡ false) same child-open
        | inr there ↦ sound.ready_new c there
      ];
      distinct = IsDistinct-snoc child ready sound.distinct child-new;
      done_zero = λ c h. zero-stays c (sound.done_zero c h);
      reached = λ c h z undone. elim (Bool-cases (c == child)) [
        | inl e ↦
            let same = eq_of_test c child e in
            subst (λ x. mem x (ready ++ child ∷ []) ≡ true) (sym same) (mem-snoc_self child ready)
        | inr e ↦
            let z' : in_degree c ≡ pos 0 = rw e at z in
            mem-snoc_old c child ready (sound.reached c h z' undone)
      ];
    }
