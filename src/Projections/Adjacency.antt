-- ===== src/Projections/Adjacency.antt =====
-- What the adjacency lists of a registry hold (projections/registry.py).
use rationale_vault.Prelude.{
  ℕ, ◌+◌, true, false, Bool-cases, List, [], ◌∷◌, ◌++◌, ok, raise, key_error, >>=-inv, ◌≡◌, refl,
  sym, ap, ◌∙◌, inl, inr, All, ◌==◌, if◌then◌else◌, arith,
}
use mathlib.Core.Path.{subst}
use rationale_vault.Events.{for_each}
use rationale_vault.Projections.{Class, BaseProjection, mem, set_at, link, build_adjacency}
use rationale_vault.Projections.Membership.{occurs, IsDistinct, eq_of_test, test_self, occurs-snoc}

abbrev Adjacency : Type 0
Adjacency = Class → List Class

-- One link adds the class once to the list of the dependency.
link-occurs :
    (cls dep d c : Class) (adj : Adjacency)
    → occurs c (set_at dep (adj dep ++ cls ∷ []) adj d)
      ≡ occurs c (adj d) + (if cls == c then if dep == d then 1 else 0 else 0)
unfolding set_at
link-occurs cls dep d c adj = elim (Bool-cases (d == dep)) [
  | inl e ↦
      let same = eq_of_test d dep e in
      rw (e, same) (ground (arith, occurs-snoc c cls (adj dep), test_self dep))
  | inr e ↦ rw e (ground (arith, e))
]

link-inv :
    (classes : List Class) (cls : Class) (adj : Adjacency) (dep : Class) (adj' : Adjacency)
    → link classes cls adj dep ≡ ok adj'
    → adj' ≡ set_at dep (adj dep ++ cls ∷ []) adj
unfolding link
link-inv classes cls adj dep adj' h = elim (Bool-cases (mem dep classes)) [
  | inl b ↦ let h' : ok (set_at dep (adj dep ++ cls ∷ []) adj) ≡ ok adj' = rw b at h in sym (cc h')
  | inr b ↦ let h' : raise key_error ≡ ok adj' = rw b at h in absurd (cc h')
]

links-occurs :
    (classes : List Class) (cls : Class) (deps : List Class) (adj adj' : Adjacency)
    → for_each (link classes cls) deps adj ≡ ok adj'
    → (d c : Class) → occurs c (adj' d) ≡ occurs c (adj d) + (if cls == c then occurs d deps else 0)
unfolding for_each
links-occurs classes cls [] adj adj' h d c =
    let e : adj ≡ adj' = cc h in
    subst (λ x. occurs c (x d) ≡ occurs c (adj d) + (if cls == c then 0 else 0)) e (ground arith)
links-occurs classes cls (dep ∷ deps) adj adj' h d c =
    let (adj1, h1, rest) =
      >>=-inv (link classes cls adj dep) (for_each (link classes cls) deps) h in
    let more = links-occurs classes cls deps adj1 adj' rest d c in
    let one : occurs c (adj1 d)
        ≡ occurs c (adj d) + (if cls == c then if dep == d then 1 else 0 else 0) =
      ap (λ x. occurs c (x d)) (link-inv classes cls adj dep adj1 h1)
      ∙ link-occurs cls dep d c adj in
    ground (arith, more, one)

module _ (declared : Class → BaseProjection) where
  -- How many dependencies of the class are on the dependency, over the classes of a list.
  abbrev edges : List Class → Class → Class → ℕ
  edges [] d c = 0
  edges (x ∷ xs) d c = (if x == c then occurs d (declared x).dependencies else 0) + edges xs d c

  edges-none : (xs : List Class) (d c : Class) → mem c xs ≡ false → edges xs d c ≡ 0
  edges-none [] d c h = refl
  edges-none (x ∷ xs) d c h = ground (arith, h, edges-none xs d c)

  edges-once :
      (xs : List Class) (d c : Class)
      → IsDistinct xs
      → mem c xs ≡ true
      → edges xs d c ≡ occurs d (declared c).dependencies
  edges-once [] d c distinct h = absurd (cc h)
  edges-once (x ∷ xs) d c distinct h = elim (Bool-cases (x == c)) [
    | inl e ↦
        let same = eq_of_test x c e in
        let none_there : mem c xs ≡ false = subst (λ y. mem y xs ≡ false) same distinct.0 in
        rw (e, same) (omega (arith, edges-none xs d c none_there))
    | inr e ↦
        let h' : mem c xs ≡ true = rw e at h in
        rw e (omega (arith, edges-once xs d c distinct.1 h'))
  ]

  build-occurs :
      (classes xs : List Class) (adj adj' : Adjacency)
      → for_each (λ adj cls. for_each (link classes cls) (declared cls).dependencies adj) xs adj
        ≡ ok adj'
      → (d c : Class) → occurs c (adj' d) ≡ occurs c (adj d) + edges xs d c
  unfolding for_each
  build-occurs classes [] adj adj' h d c =
      let e : adj ≡ adj' = cc h in
      subst (λ x. occurs c (x d) ≡ occurs c (adj d) + 0) e (omega arith)
  build-occurs classes (cls ∷ xs) adj adj' h d c =
      let (adj1, h1, rest) =
        >>=-inv (for_each (link classes cls) (declared cls).dependencies adj)
          (for_each (λ adj cls. for_each (link classes cls) (declared cls).dependencies adj) xs)
          h in
      let more = build-occurs classes xs adj1 adj' rest d c in
      let own =
        subst (λ x. occurs c (adj1 d) ≡ occurs c (adj d) + x) refl
          (links-occurs classes cls (declared cls).dependencies adj adj1 h1 d c) in
      omega (arith, more, own)

  -- The list of a dependency holds each registered class as often as the class depends on it, and no
  -- other class.
  pub build_adjacency-occurs :
      (classes : List Class) (adj : Adjacency)
      → IsDistinct classes
      → build_adjacency declared classes ≡ ok adj
      → (d c : Class)
      → occurs c (adj d) ≡ (if mem c classes then occurs d (declared c).dependencies else 0)
  unfolding build_adjacency
  build_adjacency-occurs classes adj distinct h d c =
      let built = build-occurs classes classes (λ _. []) adj h d c in
      elim (Bool-cases (mem c classes)) [
        | inl e ↦ rw e (omega (arith, built, edges-once classes d c distinct e))
        | inr e ↦ rw e (omega (arith, built, edges-none classes d c e))
      ]

  links-returns :
      (classes : List Class) (cls : Class) (deps : List Class) (adj : Adjacency)
      → All (λ dep. mem dep classes ≡ true) deps
      → (adj' : Adjacency) × (for_each (link classes cls) deps adj ≡ ok adj')
  unfolding for_each link
  links-returns classes cls [] adj there = (adj, refl)
  links-returns classes cls (dep ∷ deps) adj there =
      let (adj', e) =
        links-returns classes cls deps (set_at dep (adj dep ++ cls ∷ []) adj) there.1 in
      (adj', rw there.0 e)

  build-returns :
      (classes xs : List Class) (adj : Adjacency)
      → All (λ cls. All (λ dep. mem dep classes ≡ true) (declared cls).dependencies) xs
      → (adj' : Adjacency) × (for_each
            (λ adj cls. for_each (link classes cls) (declared cls).dependencies adj)
            xs
            adj
          ≡ ok adj')
  unfolding for_each
  build-returns classes [] adj there = (adj, refl)
  build-returns classes (cls ∷ xs) adj there =
      let (adj1, e) = links-returns classes cls (declared cls).dependencies adj there.0 in
      let (adj', rest) = build-returns classes xs adj1 there.1 in (adj', rw e rest)

  pub build_adjacency-returns :
      (classes : List Class)
      → All (λ cls. All (λ dep. mem dep classes ≡ true) (declared cls).dependencies) classes
      → (adj : Adjacency) × (build_adjacency declared classes ≡ ok adj)
  unfolding build_adjacency
  build_adjacency-returns classes there = build-returns classes classes (λ _. []) there
