-- ===== src/Projections/Sorted.antt =====
-- A sort of the ready classes keeps what is in the list (projections/registry.py).
use rationale_vault.Prelude.{
  suc, true, false, Bool-cases, List, [], ◌∷◌, ◌≡◌, refl, ap, ◌∙◌, inl, inr, length, ◌==◌,
  if◌then◌else◌, arith,
}
use rationale_vault.Projections.{Class, BaseProjection, mem, goes_before, insert_ready, sort_ready}
use rationale_vault.Projections.Membership.{IsDistinct, test_comm}

module _ (declared : Class → BaseProjection) where
  mem-insert_ready :
      (c x : Class) (xs : List Class) → mem c (insert_ready declared x xs) ≡ mem c (x ∷ xs)
  unfolding insert_ready
  mem-insert_ready c x [] = refl
  mem-insert_ready c x (y ∷ xs) = elim (Bool-cases (goes_before declared x y)) [
    | inl e ↦ rw e refl
    | inr e ↦ rw e (ground (arith, mem-insert_ready c x xs))
  ]

  IsDistinct-insert_ready :
      (x : Class) (xs : List Class)
      → IsDistinct xs
      → mem x xs ≡ false
      → IsDistinct (insert_ready declared x xs)
  unfolding insert_ready
  IsDistinct-insert_ready x [] h new = (refl, tt)
  IsDistinct-insert_ready x (y ∷ xs) h new = elim (Bool-cases (y == x)) [
    | inl same ↦ let new' : true ≡ false = rw same at new in absurd (cc new')
    | inr other ↦
        let new' : mem x xs ≡ false = rw other at new in
        let apart : mem y (x ∷ xs) ≡ false = rw (test_comm y x other) h.0 in
        elim (Bool-cases (goes_before declared x y)) [
          | inl e ↦ rw e (new, h)
          | inr e ↦ rw e (mem-insert_ready y x xs ∙ apart, IsDistinct-insert_ready x xs h.1 new')
        ]
  ]

  pub mem-sort_ready : (c : Class) (xs : List Class) → mem c (sort_ready declared xs) ≡ mem c xs
  unfolding sort_ready
  mem-sort_ready c [] = refl
  mem-sort_ready c (x ∷ xs) =
      mem-insert_ready c x (sort_ready declared xs)
      ∙ ap (λ b. if x == c then true else b) (mem-sort_ready c xs)

  pub IsDistinct-sort_ready :
      (xs : List Class) → IsDistinct xs → IsDistinct (sort_ready declared xs)
  unfolding sort_ready
  IsDistinct-sort_ready [] h = tt
  IsDistinct-sort_ready (x ∷ xs) h =
      IsDistinct-insert_ready x (sort_ready declared xs) (IsDistinct-sort_ready xs h.1)
        (mem-sort_ready x xs ∙ h.0)

  length-insert_ready :
      (x : Class) (xs : List Class) → length (insert_ready declared x xs) ≡ suc (length xs)
  unfolding insert_ready
  length-insert_ready x [] = refl
  length-insert_ready x (y ∷ xs) = elim (Bool-cases (goes_before declared x y)) [
    | inl e ↦ rw e refl
    | inr e ↦ rw e (ap suc (length-insert_ready x xs))
  ]

  pub length-sort_ready : (xs : List Class) → length (sort_ready declared xs) ≡ length xs
  unfolding sort_ready
  length-sort_ready [] = refl
  length-sort_ready (x ∷ xs) =
      length-insert_ready x (sort_ready declared xs) ∙ ap suc (length-sort_ready xs)
