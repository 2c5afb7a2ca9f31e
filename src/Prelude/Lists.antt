-- ===== src/Prelude/Lists.antt =====
-- Lists measured by native numbers, under the library's names, and tests by Boolean functions.
use Prim.Native.Nat.{ℕ, suc, ◌+◌, ◌≤◌}
use mathlib.Core.Path.{◌≡◌, refl, ap}
use mathlib.Core.Bool.{Bool, true, false}
use mathlib.Core.List.{List, [], ◌∷◌, ◌++◌, map}
use native.Mathlib.Omega.{arith}
use mathlib.Core.Logic.{◌≢◌, ◌⊎◌, inl, inr}
use rationale_vault.Prelude.Tests.{if◌then◌else◌, Bool-cases}

pub List-cases {ℓ} : {A : Type ℓ} (xs : List A) → (xs ≡ []) ⊎ (xs ≢ [])
List-cases [] = inl refl
List-cases (x ∷ xs) = inr (λ e. cc e)

module _ {ℓ} {A : Type ℓ} where
  abbrev pub length : List A → ℕ
  length [] = 0
  length (x ∷ xs) = suc (length xs)

  pub length-append : (xs ys : List A) → length (xs ++ ys) ≡ length xs + length ys
  length-append [] ys = omega arith
  length-append (x ∷ xs) ys = omega (arith, length-append xs ys)

  -- `[x for x in xs if p(x)]`
  abbrev pub keep : (A → Bool) → List A → List A
  keep p [] = []
  keep p (x ∷ xs) = let rest = keep p xs in if p x then x ∷ rest else rest

  pub keep-append : (p : A → Bool) (xs ys : List A) → keep p (xs ++ ys) ≡ keep p xs ++ keep p ys
  keep-append p [] ys = refl
  keep-append p (x ∷ xs) ys = ground (arith, keep-append p xs ys)

  pub keep-ext : (p q : A → Bool) → ((x : A) → p x ≡ q x) → (xs : List A) → keep p xs ≡ keep q xs
  keep-ext p q same [] = refl
  keep-ext p q same (x ∷ xs) = ground (arith, same x, keep-ext p q same xs)

  -- `any(p(x) for x in xs)`
  abbrev pub some_of : (A → Bool) → List A → Bool
  some_of p [] = false
  some_of p (x ∷ xs) = if p x then true else some_of p xs

  -- A predicate of every item, by recursion.
  abbrev pub All {κ} : (A → Type κ) → List A → Type κ
  All P [] = Unit
  All P (x ∷ xs) = P x × All P xs

  pub All-append {κ} :
      (Q : A → Type κ) (front back : List A) → All Q front → All Q back → All Q (front ++ back)
  All-append Q (x ∷ front) back (q, qs) tail = (q, All-append Q front back qs tail)
  All-append Q [] back _ tail = tail

  pub All-imp {κ μ} :
      (P : A → Type κ) (Q : A → Type μ)
      → ((x : A) → P x → Q x)
      → (xs : List A) → All P xs
      → All Q xs
  All-imp P Q f [] h = tt
  All-imp P Q f (x ∷ xs) h = (f x h.0, All-imp P Q f xs h.1)

  pub keep-eq_self : (p : A → Bool) (xs : List A) → All (λ x. p x ≡ true) xs → keep p xs ≡ xs
  keep-eq_self p [] h = refl
  keep-eq_self p (x ∷ xs) h = ground (arith, keep-eq_self p xs h.1)

  pub keep-eq_nil : (p : A → Bool) (xs : List A) → All (λ x. p x ≡ false) xs → keep p xs ≡ []
  keep-eq_nil p [] h = refl
  keep-eq_nil p (x ∷ xs) h = ground (arith, keep-eq_nil p xs h.1)

  pub All-keep {κ} : (P : A → Type κ) (p : A → Bool) (xs : List A) → All P xs → All P (keep p xs)
  All-keep P p [] h = tt
  All-keep P p (x ∷ xs) h = ground (arith, All-keep P p xs h.1)

  -- The keys do not go down along the list.
  abbrev pub IsAscending : (A → ℕ) → List A → Type ℓ
  IsAscending key [] = Unit
  IsAscending key (x ∷ xs) = All (λ y. key x ≤ key y) xs × IsAscending key xs

  pub IsAscending-append :
      (key : A → ℕ) (xs ys : List A)
      → IsAscending key xs
      → IsAscending key ys
      → All (λ x. All (λ y. key x ≤ key y) ys) xs
      → IsAscending key (xs ++ ys)
  IsAscending-append key [] ys hx hy h = hy
  IsAscending-append key (x ∷ xs) ys hx hy h =
      (All-append _ xs ys hx.0 h.0, IsAscending-append key xs ys hx.1 hy h.1)

module _ {ℓ κ} {A : Type ℓ} {B : Type κ} where
  pub All-map {μ} :
      (P : B → Type μ) (f : A → B) → ((x : A) → P (f x)) → (xs : List A) → All P (map f xs)
  All-map P f h [] = tt
  All-map P f h (x ∷ xs) = (h x, All-map P f h xs)

  pub length-map : (f : A → B) (xs : List A) → length (map f xs) ≡ length xs
  length-map f [] = refl
  length-map f (x ∷ xs) = ap suc (length-map f xs)

  pub All-of_map {μ} :
      (P : B → Type μ) (f : A → B) (xs : List A) → All P (map f xs) → All (λ x. P (f x)) xs
  All-of_map P f [] h = tt
  All-of_map P f (x ∷ xs) h = (h.0, All-of_map P f xs h.1)

  pub keep-map :
      (p : B → Bool) (f : A → B) (xs : List A) → keep p (map f xs) ≡ map f (keep (λ x. p (f x)) xs)
  keep-map p f [] = refl
  keep-map p f (x ∷ xs) = elim (Bool-cases (p (f x))) [
    | inl h ↦ rw h (ap (◌∷◌ (f x)) (keep-map p f xs))
    | inr h ↦ rw h (keep-map p f xs)
  ]

  pub some_of-map :
      (p : B → Bool) (f : A → B) (xs : List A) → some_of p (map f xs) ≡ some_of (λ x. p (f x)) xs
  some_of-map p f [] = refl
  some_of-map p f (x ∷ xs) = ap (λ b. if p (f x) then true else b) (some_of-map p f xs)

  pub IsAscending-of_map :
      (key : B → ℕ) (f : A → B) (xs : List A)
      → IsAscending key (map f xs)
      → IsAscending (λ x. key (f x)) xs
  IsAscending-of_map key f [] h = tt
  IsAscending-of_map key f (x ∷ xs) h = (All-of_map _ f xs h.0, IsAscending-of_map key f xs h.1)

module _ {ℓ} {A : Type ℓ} where
  pub IsAscending-keep :
      (key : A → ℕ) (p : A → Bool) (xs : List A) → IsAscending key xs → IsAscending key (keep p xs)
  IsAscending-keep key p [] h = tt
  IsAscending-keep key p (x ∷ xs) h = elim (Bool-cases (p x)) [
    | inl e ↦ rw e (All-keep _ p xs h.0, IsAscending-keep key p xs h.1)
    | inr e ↦ rw e (IsAscending-keep key p xs h.1)
  ]

  pub some_of-eq_false :
      (p : A → Bool) (xs : List A) → All (λ x. p x ≡ false) xs → some_of p xs ≡ false
  some_of-eq_false p [] h = refl
  some_of-eq_false p (x ∷ xs) h = rw h.0 (some_of-eq_false p xs h.1)

  -- What holds of the items that are kept holds of every item that passes the test.
  pub All-of_keep {κ} :
      (P : A → Type κ) (p : A → Bool) (xs : List A)
      → All P (keep p xs)
      → All (λ x. p x ≡ true → P x) xs
  All-of_keep P p [] h = tt
  All-of_keep P p (x ∷ xs) h = elim (Bool-cases (p x)) [
    | inl e ↦ let h' : All P (x ∷ keep p xs) = rw e at h in ((λ _. h'.0), All-of_keep P p xs h'.1)
    | inr e ↦
        let h' : All P (keep p xs) = rw e at h in ((λ t. absurd (cc t)), All-of_keep P p xs h')
  ]
