-- ===== src/Projections/Measure.antt =====
-- How many classes have a positive in-degree: what bounds the loop of `_compute_order`
-- (projections/registry.py).
use rationale_vault.Prelude.{
  ℕ, zero, suc, ◌+◌, ◌≤◌, Bool, true, false, Bool-cases, List, [], ◌∷◌, ◌≡◌, refl, sym, inl, inr,
  ◌⊎◌, keep, length, ◌==◌, arith,
}
use mathlib.Core.Path.{subst}
use rationale_vault.Value.{ℤ, pos}
use rationale_vault.Projections.{Class, mem, set_at, is_zero}
use rationale_vault.Projections.Membership.{eq_of_test}

pub ℕ-cases : (n : ℕ) → (n ≡ 0) ⊎ ((m : ℕ) × (n ≡ suc m))
ℕ-cases zero = inl refl
ℕ-cases (suc m) = inr (m, refl)

abbrev pub is_positive : ℤ → Bool
is_positive (pos (suc n)) = true
is_positive n = false

abbrev pub positives : (Class → ℤ) → List Class → ℕ
positives in_degree classes = length (keep (λ c. is_positive (in_degree c)) classes)

pub positives-lowered :
    (in_degree : Class → ℤ) (child : Class) (n : ℕ) (classes : List Class)
    → in_degree child ≡ pos (suc n)
    → positives (set_at child (pos n) in_degree) classes ≤ positives in_degree classes
unfolding set_at
positives-lowered in_degree child n [] h = omega arith
positives-lowered in_degree child n (c ∷ classes) h = elim (Bool-cases (c == child)) [
  | inl e ↦
      let was : in_degree c ≡ pos (suc n) =
        subst (λ x. in_degree x ≡ pos (suc n)) (sym (eq_of_test c child e)) h in
      rw (e, was) (ground (arith, positives-lowered in_degree child n classes h))
  | inr e ↦ rw e (ground (arith, positives-lowered in_degree child n classes h))
]

pub positives-ready :
    (in_degree : Class → ℤ) (child : Class) (classes : List Class)
    → in_degree child ≡ pos 1
    → mem child classes ≡ true
    → suc (positives (set_at child (pos 0) in_degree) classes) ≤ positives in_degree classes
unfolding set_at
positives-ready in_degree child [] h there = absurd (cc there)
positives-ready in_degree child (c ∷ classes) h there = elim (Bool-cases (c == child)) [
  | inl e ↦
      let was : in_degree c ≡ pos 1 =
        subst (λ x. in_degree x ≡ pos 1) (sym (eq_of_test c child e)) h in
      rw (e, was) (omega (arith, positives-lowered in_degree child 0 classes h))
  | inr e ↦
      let there' : mem child classes ≡ true = rw e at there in
      rw e (ground (arith, positives-ready in_degree child classes h there'))
]

-- At the start each class is ready or has a positive in-degree.
pub positives-start :
    (degree : Class → ℕ) (classes : List Class)
    → length (keep (λ c. is_zero (pos (degree c))) classes)
        + positives (λ c. pos (degree c)) classes
      ≡ length classes
unfolding is_zero
positives-start degree [] = omega arith
positives-start degree (c ∷ classes) = elim (ℕ-cases (degree c)) [
  | inl e ↦ rw e (omega (arith, positives-start degree classes))
  | inr (m, e) ↦ rw e (omega (arith, positives-start degree classes))
]
