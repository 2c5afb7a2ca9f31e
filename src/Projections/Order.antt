-- ===== src/Projections/Order.antt =====
-- What the computed order is (projections/registry.py, `_compute_order`).
use rationale_vault.Prelude.{
  ℕ, zero, suc, ◌+◌, ◌≤◌, ◌<◌, Bool, true, false, not, Bool-cases, some, List, [], ◌∷◌, ok, ◌≡◌,
  refl, sym, ap, ◌∙◌, inl, inr, All, keep, length, arith,
}
use mathlib.Core.Path.{subst}
use rationale_vault.Value.{ℤ, pos}
use rationale_vault.Projections.{Class, BaseProjection, mem, is_zero, initial_degree, compute_order}
use rationale_vault.Projections.Membership.{IsDistinct, test_self, mem-cons, mem-tail}
use rationale_vault.Projections.Adjacency.{build_adjacency-occurs, build_adjacency-returns}
use rationale_vault.Projections.Measure.{positives, positives-start}
use rationale_vault.Projections.Waiting.{waiting, IsSound}
use rationale_vault.Projections.Kahn.{IsBuilt, IsGood, order_loop-Ends}

mem-keep :
    (p : Class → Bool) (c : Class) (xs : List Class)
    → mem c (keep p xs) ≡ true
    → (p c ≡ true) × (mem c xs ≡ true)
mem-keep p c [] h = absurd (cc h)
mem-keep p c (x ∷ xs) h = elim (Bool-cases (p x)) [
  | inl e ↦
      let h' : mem c (x ∷ keep p xs) ≡ true = rw e at h in
      elim (mem-cons c x (keep p xs) h') [
        | inl same ↦ (
          subst (λ y. p y ≡ true) same e,
          subst (λ y. mem y (x ∷ xs) ≡ true) same (rw (test_self x) refl),
        )
        | inr there ↦ let (q, old) = mem-keep p c xs there in (q, mem-tail c x xs old)
      ]
  | inr e ↦
      let h' : mem c (keep p xs) ≡ true = rw e at h in
      let (q, old) = mem-keep p c xs h' in (q, mem-tail c x xs old)
]

mem-keep_of :
    (p : Class → Bool) (c : Class) (xs : List Class)
    → p c ≡ true
    → mem c xs ≡ true
    → mem c (keep p xs) ≡ true
mem-keep_of p c [] q h = absurd (cc h)
mem-keep_of p c (x ∷ xs) q h = elim (mem-cons c x xs h) [
  | inl same ↦
      let e : p x ≡ true = subst (λ y. p y ≡ true) (sym same) q in
      rw e (subst (λ y. mem y (x ∷ keep p xs) ≡ true) same (rw (test_self x) refl))
  | inr there ↦
      let rest = mem-keep_of p c xs q there in
      elim (Bool-cases (p x)) [ inl e ↦ rw e (mem-tail c x (keep p xs) rest) | inr e ↦ rw e rest ]
]

IsDistinct-keep : (p : Class → Bool) (xs : List Class) → IsDistinct xs → IsDistinct (keep p xs)
IsDistinct-keep p [] h = tt
IsDistinct-keep p (x ∷ xs) h = elim (Bool-cases (p x)) [
  | inr e ↦ rw e (IsDistinct-keep p xs h.1)
  | inl e ↦
      let new : mem x (keep p xs) ≡ false = elim (Bool-cases (mem x (keep p xs))) [
        | inr absent ↦ absent
        | inl there ↦ absurd (cc ((mem-keep p x xs there).1, h.0))
      ] in
      rw e (new, IsDistinct-keep p xs h.1)
]

keep-undone : (deps : List Class) → length (keep (λ d. not (mem d [])) deps) ≡ length deps
keep-undone [] = refl
keep-undone (d ∷ deps) = ap suc (keep-undone deps)

keep-all_done :
    (done deps : List Class)
    → ((d : Class) → mem d deps ≡ true → mem d done ≡ true)
    → length (keep (λ d. not (mem d done)) deps) ≡ 0
keep-all_done done [] h = refl
keep-all_done done (d ∷ deps) h =
    let first : mem d done ≡ true = h d (rw (test_self d) refl) in
    rw first (keep-all_done done deps (λ x there. h x (mem-tail x d deps there)))

pub mem-All : (P : Class → Type 0) (d : Class) (xs : List Class) → All P xs → mem d xs ≡ true → P d
mem-All P d [] all h = absurd (cc h)
mem-All P d (x ∷ xs) all h = elim (mem-cons d x xs h) [
  | inl same ↦ subst P same all.0
  | inr there ↦ mem-All P d xs all.1 there
]

zero_of : (n : ℕ) → is_zero (pos n) ≡ true → n ≡ 0
unfolding is_zero
zero_of zero h = refl
zero_of (suc n) h = absurd (cc h)

at_zero : (n : ℕ) → pos n ≡ pos 0 → is_zero (pos n) ≡ true
unfolding is_zero
at_zero zero h = refl
at_zero (suc n) h = absurd (cc h)

module _ (declared : Class → BaseProjection) (classes : List Class) where
  starts :
      length (keep (λ c. is_zero (initial_degree declared c)) classes)
        + positives (initial_degree declared) classes
      ≤ length classes
  unfolding initial_degree
  starts = omega (arith, positives-start (λ c. length (declared c).dependencies) classes)

  IsSound-start :
      IsDistinct classes
      → IsSound declared classes
          (initial_degree declared)
          []
          (keep (λ c. is_zero (initial_degree declared c)) classes)
          []
  unfolding initial_degree
  IsSound-start distinct = record {
    counted = λ c h. ap pos (omega (arith, keep-undone (declared c).dependencies));
    registered = λ c h. refl;
    ready_zero = λ c h. ap pos (zero_of _ (mem-keep _ c classes h).0);
    ready_registered = λ c h. (mem-keep _ c classes h).1;
    ready_new = λ c h. refl;
    distinct = IsDistinct-keep _ classes distinct;
    done_zero = λ c h. absurd (cc h);
    reached = λ c h z undone. mem-keep_of _ c classes (at_zero _ z) h;
  }

  -- The order of classes that are registered once each and depend on registered classes: it is
  -- computed within the fuel, has no class twice and only registered ones, and each class has its
  -- dependencies before it; and the loop has ended with no class ready.
  abbrev Ordered : Type 0
  Ordered =
      (order : List Class) × (compute_order declared classes ≡ ok (some order))
      × IsGood declared classes order
      × ((in_degree : Class → ℤ) × IsSound declared classes in_degree [] [] order)

  ordered :
      IsDistinct classes
      → All (λ cls. All (λ dep. mem dep classes ≡ true) (declared cls).dependencies) classes
      → Ordered
  unfolding compute_order
  ordered distinct there =
      let (adj, built) = build_adjacency-returns declared classes there in
      let edges = build_adjacency-occurs declared classes adj distinct built in
      let start : length (keep (λ c. is_zero (initial_degree declared c)) classes)
            + positives (initial_degree declared) classes
          ≤ length classes =
        starts in
      let (order, run, good, final) =
        order_loop-Ends declared classes adj (λ d c. edges d c) (length classes)
          (initial_degree declared) (keep (λ c. is_zero (initial_degree declared c)) classes) []
          (IsSound-start distinct, start) (tt, tt, (λ c h. absurd (cc h))) in
      (order, rw (built, run) refl, good, final)

  -- A class of the order has all its dependencies in the order too, so that in a ranking of the
  -- classes none is left out.
  ranked :
      (rank : Class → ℕ) (order : List Class) (in_degree : Class → ℤ)
      → All (λ cls. All (λ dep. mem dep classes ≡ true) (declared cls).dependencies) classes
      → ((c d : Class)
          → mem c classes ≡ true
          → mem d (declared c).dependencies ≡ true
          → rank d < rank c)
      → IsSound declared classes in_degree [] [] order
      → (n : ℕ) (c : Class) → rank c < n
      → mem c classes ≡ true
      → mem c order ≡ true
  ranked rank order in_degree there lower final zero c less h = absurd (omega (arith, less))
  ranked rank order in_degree there lower final (suc n) c less h =
      let deps = mem-All _ c classes there h in
      let none_left : waiting declared classes order c ≡ 0 =
        keep-all_done order (declared c).dependencies (λ d dep.
          ranked rank order in_degree there lower final n d (omega (arith, less, lower c d h dep))
            (mem-All _ d (declared c).dependencies deps dep)) in
      let at_end : in_degree c ≡ pos 0 = final.counted c h ∙ ap pos (omega (arith, none_left)) in
      elim (Bool-cases (mem c order)) [
        | inl e ↦ e
        | inr e ↦ let left : mem c [] ≡ true = final.reached c h at_end e in absurd (cc left)
      ]

-- For classes that are registered once each and depend on registered classes only, an order is
-- computed within the fuel, whether the dependencies have a cycle or not: it has no class twice and
-- registered ones only, and each class in it comes after all its dependencies.
pub compute_order-IsBuilt :
    (declared : Class → BaseProjection) (classes : List Class)
    → IsDistinct classes
    → All (λ cls. All (λ dep. mem dep classes ≡ true) (declared cls).dependencies) classes
    → (order : List Class) × (compute_order declared classes ≡ ok (some order))
      × IsBuilt declared [] order
      × IsDistinct order
      × ((c : Class) → mem c order ≡ true → mem c classes ≡ true)
compute_order-IsBuilt declared classes distinct there =
    let (order, run, (built, once, within), _) = ordered declared classes distinct there in
    (order, run, built, once, within)

-- Where a ranking of classes that are registered once each and depend on registered classes only gives
-- each class a higher rank than its dependencies, so that there is no cycle, the order that is computed
-- has every registered class, once and after its dependencies, and no other class.
pub compute_order_complete :
    (declared : Class → BaseProjection) (classes : List Class) (rank : Class → ℕ)
    → IsDistinct classes
    → All (λ cls. All (λ dep. mem dep classes ≡ true) (declared cls).dependencies) classes
    → ((c d : Class)
        → mem c classes ≡ true
        → mem d (declared c).dependencies ≡ true
        → rank d < rank c)
    → (order : List Class) × (compute_order declared classes ≡ ok (some order))
      × IsBuilt declared [] order
      × IsDistinct order
      × ((c : Class) → mem c order ≡ mem c classes)
compute_order_complete declared classes rank distinct there lower =
    let (order, run, (built, once, within), (in_degree, final)) =
      ordered declared classes distinct there in
    let all_there : (c : Class) → mem c classes ≡ true → mem c order ≡ true = λ c h.
      ranked declared classes rank order in_degree there lower final (suc (rank c)) c (omega arith)
        h in
    (
      order,
      run,
      built,
      once,
      (λ c. elim (Bool-cases (mem c order)) [
        | inl e ↦ e ∙ sym (within c e)
        | inr e ↦ elim (Bool-cases (mem c classes)) [
          | inr f ↦ e ∙ sym f
          | inl f ↦ absurd (cc (all_there c f, e))
        ]
      ]),
    )
