-- ===== src/Projections/Cycles/Visits.antt =====
-- How much the search for cycles has still to do (projections/registry.py).
use rationale_vault.Prelude.{
  ℕ, suc, ◌+◌, ◌≤◌, Bool, true, false, Bool-cases, List, [], ◌∷◌, ◌≡◌, refl, sym, ap, inl, inr, ◌⊎◌,
  length, length-append, ◌==◌, if◌then◌else◌, arith,
}
use mathlib.Core.Path.{subst}
use rationale_vault.Projections.{Class, BaseProjection, mem, set_at}
use rationale_vault.Projections.Membership.{eq_of_test, mem-append}
use rationale_vault.Projections.Cycles.{
  Mark, unvisited, visiting, visited, Stack, from_last, rounds,
}

pub Mark-cases : (m : Mark) → (m ≡ unvisited) ⊎ (m ≡ visiting) ⊎ (m ≡ visited)
Mark-cases unvisited = inl refl
Mark-cases visiting = inr (inl refl)
Mark-cases visited = inr (inr refl)

abbrev pub is_open : Mark → Bool
is_open unvisited = true
is_open _ = false

abbrev pub is_finished : Mark → Bool
is_finished visited = true
is_finished _ = false

pub mem-from_last : (d : Class) (deps : List Class) → mem d (from_last deps) ≡ mem d deps
unfolding from_last
mem-from_last d [] = refl
mem-from_last d (c ∷ deps) =
    ground (arith, mem-append d (from_last deps) (c ∷ []), mem-from_last d deps)

pub length-from_last : (deps : List Class) → length (from_last deps) ≡ length deps
unfolding from_last
length-from_last [] = refl
length-from_last (c ∷ deps) =
    omega (arith, length-append (from_last deps) (c ∷ []), length-from_last deps)

-- The rounds that the stack takes.
abbrev pub stacked : Stack → ℕ
stacked [] = 0
stacked ((c, children) ∷ stack) = suc (length children) + stacked stack

module _ (declared : Class → BaseProjection) where
  abbrev pub own_rounds : Class → ℕ
  own_rounds c = suc (length (declared c).dependencies)

  -- The rounds that the unvisited classes take.
  abbrev pub left : (Class → Mark) → List Class → ℕ
  left marks [] = 0
  left marks (c ∷ classes) = (if is_open (marks c) then own_rounds c else 0) + left marks classes

  pub left-set_at :
      (marks : Class → Mark) (k : Class) (m : Mark) (classes : List Class)
      → is_open m ≡ false
      → left (set_at k m marks) classes ≤ left marks classes
  unfolding set_at
  left-set_at marks k m [] h = omega arith
  left-set_at marks k m (c ∷ classes) h = elim (Bool-cases (c == k)) [
    | inl e ↦ rw (e, h) (omega (arith, left-set_at marks k m classes h))
    | inr e ↦ rw e (omega (arith, left-set_at marks k m classes h))
  ]

  pub left-visit :
      (marks : Class → Mark) (k : Class) (m : Mark) (classes : List Class)
      → is_open m ≡ false
      → marks k ≡ unvisited
      → mem k classes ≡ true
      → own_rounds k + left (set_at k m marks) classes ≤ left marks classes
  unfolding set_at
  left-visit marks k m [] h new there = absurd (cc there)
  left-visit marks k m (c ∷ classes) h new there = elim (Bool-cases (c == k)) [
    | inl e ↦
        let same = eq_of_test c k e in
        let was : is_open (marks c) ≡ true =
          subst (λ x. is_open (marks x) ≡ true) (sym same) (ap is_open new) in
        let own : own_rounds c ≡ own_rounds k = ap own_rounds same in
        rw (e, h, was) (omega (arith, left-set_at marks k m classes h, own))
    | inr e ↦
        let there' : mem k classes ≡ true = rw e at there in
        rw e (omega (arith, left-visit marks k m classes h new there'))
  ]

  pub left-rounds : (classes : List Class) → left (λ _. unvisited) classes ≡ rounds declared classes
  unfolding rounds
  left-rounds [] = refl
  left-rounds (c ∷ classes) = omega (arith, left-rounds classes)
