-- ===== src/Projections/Membership.antt =====
-- Membership, occurrences and lists without duplicates, of classes (projections/registry.py).
use rationale_vault.Prelude.{
  ℕ, ◌+◌, true, false, Bool-cases, List, [], ◌∷◌, ◌++◌, ◌≡◌, refl, sym, ◌∙◌, inl, inr, ◌⊎◌, keep,
  length, ◌==◌, ==_iff, if◌then◌else◌, arith,
}
use rationale_vault.Projections.{Class, mem}

-- How often a class stands in a list.
abbrev pub occurs : Class → List Class → ℕ
occurs cls classes = length (keep (λ c. c == cls) classes)

-- No class stands in the list twice.
abbrev pub IsDistinct : List Class → Type 0
IsDistinct [] = Unit
IsDistinct (cls ∷ classes) = (mem cls classes ≡ false) × IsDistinct classes

pub eq_of_test : (a b : Class) → (a == b) ≡ true → a ≡ b
eq_of_test a b h = (==_iff a b).0 h

pub test_self : (a : Class) → (a == a) ≡ true
test_self a = (==_iff a a).1 refl

pub test_comm : (a b : Class) → (a == b) ≡ false → (b == a) ≡ false
test_comm a b h = ground (arith, h)

pub mem-append :
    (c : Class) (xs ys : List Class) → mem c (xs ++ ys) ≡ (if mem c xs then true else mem c ys)
mem-append c [] ys = refl
mem-append c (x ∷ xs) ys = ground (arith, mem-append c xs ys)

pub mem-tail : (c x : Class) (xs : List Class) → mem c xs ≡ true → mem c (x ∷ xs) ≡ true
mem-tail c x xs h = ground (arith, h)

pub mem-cons : (c x : Class) (xs : List Class) → mem c (x ∷ xs) ≡ true → (x ≡ c) ⊎ (mem c xs ≡ true)
mem-cons c x xs h = elim (Bool-cases (x == c)) [
  | inl e ↦ inl (eq_of_test x c e)
  | inr e ↦ let h' : mem c xs ≡ true = rw e at h in inr h'
]

pub mem-snoc :
    (c x : Class) (xs : List Class) → mem c (xs ++ x ∷ []) ≡ true → (x ≡ c) ⊎ (mem c xs ≡ true)
mem-snoc c x xs h = elim (Bool-cases (mem c xs)) [
  | inl e ↦ inr e
  | inr e ↦
      let h' : (if mem c xs then true else mem c (x ∷ [])) ≡ true =
        sym (mem-append c xs (x ∷ [])) ∙ h in
      let h1 : mem c (x ∷ []) ≡ true = rw e at h' in
      elim (mem-cons c x [] h1) [ inl same ↦ inl same | inr none_there ↦ absurd (cc none_there) ]
]

pub mem-snoc_self : (x : Class) (xs : List Class) → mem x (xs ++ x ∷ []) ≡ true
mem-snoc_self x xs = ground (arith, mem-append x xs (x ∷ []), test_self x)

pub mem-snoc_old : (c x : Class) (xs : List Class) → mem c xs ≡ true → mem c (xs ++ x ∷ []) ≡ true
mem-snoc_old c x xs h = mem-append c xs (x ∷ []) ∙ rw h refl

pub mem-snoc_ne :
    (c x : Class) (xs : List Class) → (x == c) ≡ false → mem c (xs ++ x ∷ []) ≡ mem c xs
mem-snoc_ne c x xs h = ground (arith, mem-append c xs (x ∷ []), h)

pub IsDistinct-snoc :
    (x : Class) (xs : List Class) → IsDistinct xs → mem x xs ≡ false → IsDistinct (xs ++ x ∷ [])
IsDistinct-snoc x [] h new = (refl, tt)
IsDistinct-snoc x (y ∷ xs) h new = elim (Bool-cases (y == x)) [
  | inl e ↦ let new' : true ≡ false = rw e at new in absurd (cc new')
  | inr e ↦
      let new' : mem x xs ≡ false = rw e at new in
      (mem-snoc_ne y x xs (test_comm y x e) ∙ h.0, IsDistinct-snoc x xs h.1 new')
]

pub occurs-cons :
    (c x : Class) (xs : List Class) → occurs c (x ∷ xs) ≡ (if x == c then 1 else 0) + occurs c xs
occurs-cons c x xs = ground arith

pub occurs-snoc :
    (c x : Class) (xs : List Class)
    → occurs c (xs ++ x ∷ []) ≡ occurs c xs + (if x == c then 1 else 0)
occurs-snoc c x [] = ground arith
occurs-snoc c x (y ∷ xs) = ground (arith, occurs-snoc c x xs)

pub occurs-none : (c : Class) (xs : List Class) → mem c xs ≡ false → occurs c xs ≡ 0
occurs-none c [] h = refl
occurs-none c (x ∷ xs) h = ground (arith, h, occurs-none c xs)
