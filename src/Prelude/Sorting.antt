-- ===== src/Prelude/Sorting.antt =====
-- A stable sort by a number (`list.sort(key=…)`, `ORDER BY`), and the greatest number (`max`, `MAX`).
use Prim.Native.Nat.{ℕ, ◌≤◌, max}
use mathlib.Core.Path.{◌≡◌, refl, ap, ◌∙◌}
use mathlib.Core.Option.{Option, none, some, get_or}
use mathlib.Core.Logic.{inl, inr, ◌≢◌}
use mathlib.Core.List.{List, [], ◌∷◌, ◌++◌}
use native.Mathlib.Omega.{arith}
use rationale_vault.Prelude.Tests.{Option-cases, Bool-cases, leb, le→leb, if◌then◌else◌}
use rationale_vault.Prelude.Lists.{All, IsAscending}

module _ {ℓ} {A : Type ℓ} (key : A → ℕ) where
  unfoldable pub insert_by : A → List A → List A
  insert_by x [] = x ∷ []
  insert_by x (y ∷ ys) = if leb (key x) (key y) then x ∷ y ∷ ys else y ∷ insert_by x ys

  -- A stable sort by `key`.
  unfoldable pub order_by : List A → List A
  unfolding insert_by
  order_by [] = []
  order_by (x ∷ xs) = insert_by x (order_by xs)

  insert_by-first : (x : A) (xs : List A) → All (λ y. key x ≤ key y) xs → insert_by x xs ≡ x ∷ xs
  unfolding insert_by
  insert_by-first x [] h = refl
  insert_by-first x (y ∷ ys) h = rw (le→leb _ _ h.0)

  -- What is in order stays as it is.
  pub order_by-eq_self : (xs : List A) → IsAscending key xs → order_by xs ≡ xs
  unfolding order_by
  order_by-eq_self [] h = refl
  order_by-eq_self (x ∷ xs) h = rw (order_by-eq_self xs h.1) (insert_by-first x xs h.0)

insert_by-All {ℓ κ} :
    {A : Type ℓ} (key : A → ℕ) (P : A → Type κ) (x : A) (xs : List A)
    → P x
    → All P xs
    → All P (insert_by key x xs)
unfolding insert_by
insert_by-All key P x [] p all = (p, tt)
insert_by-All key P x (y ∷ xs) p all = elim (Bool-cases (leb (key x) (key y))) [
  | inl h ↦ rw h (p, all)
  | inr h ↦ rw h (all.0, insert_by-All key P x xs p all.1)
]

pub order_by-All {ℓ κ} :
    {A : Type ℓ} (key : A → ℕ) (P : A → Type κ) (xs : List A) → All P xs → All P (order_by key xs)
unfolding order_by
order_by-All key P [] all = tt
order_by-All key P (x ∷ xs) all = insert_by-All key P x _ all.0 (order_by-All key P xs all.1)

-- The second list has the items of the first, some of them exchanged with neighbours of another key.
pub data Reordered {ℓ} {A : Type ℓ} (key : A → ℕ) : List A → List A → Type ℓ where
  unchanged : (xs : List A) → Reordered key xs xs
  behind : (x : A) (xs ys : List A) → Reordered key xs ys → Reordered key (x ∷ xs) (x ∷ ys)
  exchanged : (x y : A) (xs : List A) → key x ≢ key y → Reordered key (x ∷ y ∷ xs) (y ∷ x ∷ xs)
  twice : (xs ys zs : List A) → Reordered key xs ys → Reordered key ys zs → Reordered key xs zs

insert_by_comm {ℓ} :
    {A : Type ℓ} (key : A → ℕ) (x y : A) (xs : List A)
    → key x ≢ key y
    → insert_by key x (insert_by key y xs) ≡ insert_by key y (insert_by key x xs)
unfolding insert_by
insert_by_comm key x y [] h = ground arith
insert_by_comm key x y (z ∷ xs) h = ground (arith, insert_by_comm key x y xs h)

-- Where no two items that trade places have one key, a sort gives the same list.
pub order_by-Reordered {ℓ} :
    {A : Type ℓ} (key : A → ℕ) (xs ys : List A)
    → Reordered key xs ys
    → order_by key xs ≡ order_by key ys
unfolding order_by
order_by-Reordered key xs _ (unchanged _) = refl
order_by-Reordered key _ _ (behind x xs ys h) =
    ap (insert_by key x) (order_by-Reordered key xs ys h)
order_by-Reordered key _ _ (exchanged x y xs h) = insert_by_comm key x y (order_by key xs) h
order_by-Reordered key xs zs (twice _ ys _ h k) =
    order_by-Reordered key xs ys h ∙ order_by-Reordered key ys zs k

-- There is none over no numbers.
unfoldable pub max_of : List ℕ → Option ℕ
max_of [] = none
max_of (x ∷ xs) = elim (max_of xs) [ none ↦ some x | some m ↦ some (max x m) ]

pub max_of-append_some :
    (xs ys : List ℕ) (m : ℕ) → max_of ys ≡ some m → All (λ x. x ≤ m) xs → max_of (xs ++ ys) ≡ some m
unfolding max_of
max_of-append_some [] ys m h le = h
max_of-append_some (x ∷ xs) ys m h le = ground (arith, max_of-append_some xs ys m h le.1)

pub max_of-bound :
    (xs : List ℕ) (bound : ℕ) → get_or (max_of xs) 0 ≤ bound → All (λ x. x ≤ bound) xs
unfolding max_of
max_of-bound [] bound h = tt
max_of-bound (x ∷ xs) bound h = elim (Option-cases (max_of xs)) [
  | inl e ↦ let h' : x ≤ bound = rw e at h in (h', max_of-bound xs bound (rw e (omega arith)))
  | inr (m, e) ↦
      let h' : max x m ≤ bound = rw e at h in
      (omega (arith, h'), max_of-bound xs bound (rw e (omega (arith, h'))))
]

pub max_of-le : (xs : List ℕ) (bound : ℕ) → All (λ x. x ≤ bound) xs → get_or (max_of xs) 0 ≤ bound
unfolding max_of
max_of-le [] bound h = omega arith
max_of-le (x ∷ xs) bound h = elim (Option-cases (max_of xs)) [
  | inl e ↦ rw e h.0
  | inr (m, e) ↦
      let le : m ≤ bound = let g = max_of-le xs bound h.1 in rw e at g in
      rw e (omega (arith, le, h.0))
]
