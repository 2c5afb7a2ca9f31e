-- ===== src/Prelude/Dict.antt =====
-- Python's `dict` as an association list in insertion order: a write to a key that is there keeps
-- the key's place. Keys have a decidable equality.
use mathlib.Core.Logic.{ite, ◌≢◌, inl, inr}
use mathlib.Core.Path.{◌≡◌, refl}
use mathlib.Core.Bool.{Bool, true, false}
use mathlib.Core.Option.{Option, none, some}
use mathlib.Core.List.{List, [], ◌∷◌, map}
use rationale_vault.Prelude.Tests.{Option-cases}
use native.Mathlib.Omega.{arith}

abbrev pub Dict {ℓ} : Type ℓ → Type ℓ → Type ℓ
Dict K V = List (K × V)

module _ {ℓ} {K V : Type ℓ} where
  -- `d.keys()` and `d.values()`
  abbrev pub keys : Dict K V → List K
  keys = map (λ e. e.0)

  abbrev pub values : Dict K V → List V
  values = map (λ e. e.1)

module _ {ℓ} {K V : Type ℓ} (dec : Discrete K) where
  -- `d.get(k)`
  unfoldable pub get : K → Dict K V → Option V
  get k [] = none
  get k ((j, v) ∷ d) = ite (dec j k) (some v) (get k d)

  -- `k in d`
  unfoldable pub has : K → Dict K V → Bool
  has k d = elim (get k d) [ none ↦ false | some _ ↦ true ]

  -- `d[k] = v`
  unfoldable pub put : K → V → Dict K V → Dict K V
  put k v [] = (k, v) ∷ []
  put k v ((j, w) ∷ d) = ite (dec j k) ((j, v) ∷ d) ((j, w) ∷ put k v d)

  -- `d.pop(k, None)`
  unfoldable pub without : K → Dict K V → Dict K V
  without k [] = []
  without k ((j, w) ∷ d) = let rest = without k d in ite (dec j k) rest ((j, w) ∷ rest)

  pub get-put_self : (k : K) (v : V) (d : Dict K V) → get k (put k v d) ≡ some v
  unfolding get put
  get-put_self k v [] = ground arith
  get-put_self k v ((j, w) ∷ d) = ground (arith, get-put_self k v d)

  pub get-put_ne : (k j : K) (v : V) (d : Dict K V) → k ≢ j → get j (put k v d) ≡ get j d
  unfolding get put
  get-put_ne k j v [] h = ground arith
  get-put_ne k j v ((i, w) ∷ d) h = ground (arith, get-put_ne k j v d h)

  pub get-without_self : (k : K) (d : Dict K V) → get k (without k d) ≡ none
  unfolding get without
  get-without_self k [] = refl
  get-without_self k ((j, w) ∷ d) = ground (arith, get-without_self k d)

  pub get-without_ne : (k j : K) (d : Dict K V) → k ≢ j → get j (without k d) ≡ get j d
  unfolding get without
  get-without_ne k j [] h = refl
  get-without_ne k j ((i, w) ∷ d) h = ground (arith, get-without_ne k j d h)

  pub has-put_ne : (k j : K) (v : V) (d : Dict K V) → k ≢ j → has j (put k v d) ≡ has j d
  unfolding has
  has-put_ne k j v d h = rw (get-put_ne k j v d h, has)

  pub has-put_self : (k : K) (v : V) (d : Dict K V) → has k (put k v d) ≡ true
  unfolding has
  has-put_self k v d = rw (get-put_self k v d, has)

  pub has-get : (k : K) (v : V) (d : Dict K V) → get k d ≡ some v → has k d ≡ true
  unfolding has
  has-get k v d h = rw (h, has)

  pub has-false_of_none : (k : K) (d : Dict K V) → get k d ≡ none → has k d ≡ false
  unfolding has
  has-false_of_none k d h = rw (h, has)

  pub get_of_has : (k : K) (d : Dict K V) → has k d ≡ true → (v : V) × (get k d ≡ some v)
  get_of_has k d h = elim (Option-cases (get k d)) [
    | inl none_there ↦ cc (has-false_of_none k d none_there)
    | inr there ↦ there
  ]

  pub get-none_of_has : (k : K) (d : Dict K V) → has k d ≡ false → get k d ≡ none
  get-none_of_has k d h = elim (Option-cases (get k d)) [
    | inl none_there ↦ none_there
    | inr there ↦ cc (has-get k there.0 d there.1)
  ]
