-- ===== src/CognitiveHead/States/Updates.antt =====
-- What a write of a state and an update of one do to the states (cognitive_head/reducers.py).
use rationale_vault.Prelude.{
  Bool-cases, Option, Option-cases, some, [], ◌∷◌, Result, Result-cases, ok, raise, type_error, ◌≡◌,
  ◌≢◌, refl, sym, ◌∙◌, ap, inl, inr, ◌⊎◌, All,
}
use mathlib.Core.Logic.{ite}
use mathlib.Core.Path.{subst}
use rationale_vault.Prelude.Dict
use rationale_vault.Prelude.Dict.{Dict}
use rationale_vault.Value.{Value, Value_discrete, truthy, hashable}
use rationale_vault.CognitiveHead.States.{known, store, update}

module _ {A : Type 0} where
  abbrev pub find : Value → Dict Value A → Option A
  find = Dict.get Value_discrete

  abbrev pub write : Value → A → Dict Value A → Dict Value A
  write = Dict.put Value_discrete

  pub store-inv :
      (id : Value) (s : A) (d d' : Dict Value A) → store id s d ≡ ok d' → d' ≡ write id s d
  unfolding store
  store-inv id s d d' h = elim (Bool-cases (hashable id)) [
    | inl b ↦ let h' : ok (write id s d) ≡ ok d' = rw b at h in sym (cc h')
    | inr b ↦ let h' : raise type_error ≡ ok d' = rw b at h in absurd (cc h')
  ]

  store-any :
      (id : Value) (s : A) (d d' e : Dict Value A)
      → store id s d ≡ ok d'
      → store id s e ≡ ok (write id s e)
  unfolding store
  store-any id s d d' e h = elim (Bool-cases (hashable id)) [
    | inl b ↦ rw b refl
    | inr b ↦ let h' : raise type_error ≡ ok d' = rw b at h in absurd (cc h')
  ]

  -- What an update that went through did: nothing, or it changed the state that was there.
  pub update-inv :
      (id : Value) (change : A → Result A) (d d' : Dict Value A)
      → update id change d ≡ ok d'
      → (d' ≡ d) ⊎ ((s s' : A) × (find id d ≡ some s) × (change s ≡ ok s') × (d' ≡ write id s' d))
  unfolding update known
  update-inv id change d d' h = elim (Bool-cases (truthy id)) [
    | inr b ↦ let h' : ok d ≡ ok d' = rw b at h in inl (sym (cc h'))
    | inl b ↦ elim (Bool-cases (hashable id)) [
      | inr c ↦ let h' : raise type_error ≡ ok d' = rw (b, c) at h in absurd (cc h')
      | inl c ↦ elim (Option-cases (find id d)) [
        | inl f ↦ let h' : ok d ≡ ok d' = rw (b, c, f) at h in inl (sym (cc h'))
        | inr (s, f) ↦ elim (Result-cases (change s)) [
          | inl (s', g) ↦
              let h' : ok (write id s' d) ≡ ok d' = rw (b, c, f, g) at h in
              inr (s, s', f, g, sym (cc h'))
          | inr (x, g) ↦ let h' : raise x ≡ ok d' = rw (b, c, f, g) at h in absurd (cc h')
        ]
      ]
    ]
  ]

  All-write :
      (P : (Value × A) → Type 0) (k : Value) (v : A) (d : Dict Value A)
      → P (k, v)
      → All P d
      → All P (write k v d)
  unfolding Dict.put
  All-write P k v [] p all = (p, tt)
  All-write P k v ((j, w) ∷ d) p all =
      elim (Value_discrete j k) as (λ b. All P (ite b ((j, v) ∷ d) ((j, w) ∷ write k v d))) [
        | yes e ↦ (subst (λ i. P (i, v)) (sym e) p, all.1)
        | no n ↦ (all.0, All-write P k v d p all.1)
      ]

  All-find :
      (P : (Value × A) → Type 0) (k : Value) (v : A) (d : Dict Value A)
      → All P d
      → find k d ≡ some v
      → P (k, v)
  unfolding Dict.get
  All-find P k v [] all h = cc h
  All-find P k v ((j, w) ∷ d) all h =
      (elim (Value_discrete j k) as (λ b. ite b (some w) (find k d) ≡ some v → P (k, v)) [
        | yes e ↦ λ g. subst P (let i : w ≡ v = cc g in cc (e, i)) all.0
        | no n ↦ λ g. All-find P k v d all.1 g
      ])
        h

  -- What holds of every state under its id still holds after a write that keeps it.
  pub store-All :
      (P : (Value × A) → Type 0) (id : Value) (s : A) (d d' : Dict Value A)
      → P (id, s)
      → All P d
      → store id s d ≡ ok d'
      → All P d'
  store-All P id s d d' p all h =
      subst (All P) (sym (store-inv id s d d' h)) (All-write P id s d p all)

  pub update-All :
      (P : (Value × A) → Type 0) (id : Value) (change : A → Result A) (d d' : Dict Value A)
      → ((s s' : A) → change s ≡ ok s' → P (id, s) → P (id, s'))
      → All P d
      → update id change d ≡ ok d'
      → All P d'
  update-All P id change d d' keeps all h = elim (update-inv id change d d' h) [
    | inl e ↦ subst (All P) (sym e) all
    | inr (s, s', f, g, e) ↦
        subst (All P) (sym e) (All-write P id s' d (keeps s s' g (All-find P id s d all f)) all)
  ]

  -- A write and an update leave every other id alone.
  pub store-other :
      (id other : Value) (s : A) (d d' : Dict Value A)
      → id ≢ other
      → store id s d ≡ ok d'
      → find other d' ≡ find other d
  store-other id other s d d' ne h =
      ap (find other) (store-inv id s d d' h) ∙ Dict.get-put_ne Value_discrete id other s d ne

  pub update-other :
      (id other : Value) (change : A → Result A) (d d' : Dict Value A)
      → id ≢ other
      → update id change d ≡ ok d'
      → find other d' ≡ find other d
  update-other id other change d d' ne h = elim (update-inv id change d d' h) [
    | inl e ↦ ap (find other) e
    | inr (s, s', _, _, e) ↦ ap (find other) e ∙ Dict.get-put_ne Value_discrete id other s' d ne
  ]

  -- What they make of their own id depends on its state only.
  pub store-own :
      (id : Value) (s : A) (d e d' : Dict Value A)
      → store id s d ≡ ok d'
      → (e' : Dict Value A) × (store id s e ≡ ok e') × (find id d' ≡ find id e')
  store-own id s d e d' h = (
    write id s e,
    store-any id s d d' e h,
    ap (find id) (store-inv id s d d' h)
        ∙ Dict.get-put_self Value_discrete id s d
        ∙ sym (Dict.get-put_self Value_discrete id s e),
  )

  pub update-own :
      (id : Value) (change : A → Result A) (d e d' : Dict Value A)
      → find id d ≡ find id e
      → update id change d ≡ ok d'
      → (e' : Dict Value A) × (update id change e ≡ ok e') × (find id d' ≡ find id e')
  unfolding update known
  update-own id change d e d' same h = elim (Bool-cases (truthy id)) [
    | inr b ↦
        let h' : ok d ≡ ok d' = rw b at h in
        let c : d ≡ d' = cc h' in (e, rw b refl, ap (find id) (sym c) ∙ same)
    | inl b ↦ elim (Bool-cases (hashable id)) [
      | inr c ↦ let h' : raise type_error ≡ ok d' = rw (b, c) at h in absurd (cc h')
      | inl c ↦ elim (Option-cases (find id d)) [
        | inl f ↦
            let h' : ok d ≡ ok d' = rw (b, c, f) at h in
            let k : d ≡ d' = cc h' in (e, rw (b, c, sym same ∙ f) refl, ap (find id) (sym k) ∙ same)
        | inr (s, f) ↦ elim (Result-cases (change s)) [
          | inl (s', g) ↦
              let h' : ok (write id s' d) ≡ ok d' = rw (b, c, f, g) at h in
              let k : write id s' d ≡ d' = cc h' in
              (
                write id s' e,
                rw (b, c, sym same ∙ f, g) refl,
                ap (find id) (sym k)
                    ∙ Dict.get-put_self Value_discrete id s' d
                    ∙ sym (Dict.get-put_self Value_discrete id s' e),
              )
          | inr (x, g) ↦ let h' : raise x ≡ ok d' = rw (b, c, f, g) at h in absurd (cc h')
        ]
      ]
    ]
  ]
