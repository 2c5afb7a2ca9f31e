-- ===== src/Projections/Register.antt =====
-- What registration keeps (projections/registry.py).
use rationale_vault.Prelude.{
  String, Bool, true, false, Bool-cases, some, [], ◌∷◌, ◌++◌, Result, ok, raise, value_error,
  type_error, duplicate_projection, ◌≡◌, ◌≢◌, refl, sym, ◌∙◌, inl, inr, ◌⊎◌, str_eq, text_discrete,
}
use mathlib.Core.Path.{subst}
use rationale_vault.Prelude.Dict
use rationale_vault.Prelude.Dict.{Dict}
use rationale_vault.Projections.{
  Class, BaseProjection, ProjectionRegistry, mem, register_projection,
}
use rationale_vault.Projections.Membership.{
  IsDistinct, IsDistinct-snoc, mem-snoc, mem-snoc_self, mem-snoc_old,
}

module _ (declared : Class → BaseProjection) where
  -- No class is registered twice, and each is found under its own name.
  abbrev pub IsRegistry : ProjectionRegistry → Type 0
  IsRegistry registry =
      IsDistinct registry.classes
      × ((c : Class)
          → mem c registry.classes ≡ true
          → Dict.get text_discrete (declared c).projection_name registry.projections ≡ some c)

  abbrev pub added : ProjectionRegistry → Class → ProjectionRegistry
  added registry cls = record {
    projections = Dict.put text_discrete (declared cls).projection_name cls registry.projections;
    classes = registry.classes ++ cls ∷ [];
  }

  added-IsRegistry :
      (registry : ProjectionRegistry) (cls : Class)
      → mem cls registry.classes ≡ false
      → Dict.has text_discrete (declared cls).projection_name registry.projections ≡ false
      → IsRegistry registry
      → IsRegistry (added registry cls)
  added-IsRegistry registry cls new free (distinct, named) =
      let name = (declared cls).projection_name in
      (
        IsDistinct-snoc cls registry.classes distinct new,
        (λ c h. elim (mem-snoc c cls registry.classes h) [
          | inl same ↦
              subst
                (λ x.
                  Dict.get text_discrete (declared x).projection_name
                    (Dict.put text_discrete name cls registry.projections)
                  ≡ some x)
                same (Dict.get-put_self text_discrete name cls registry.projections)
          | inr old ↦
              let other : name ≢ (declared c).projection_name = λ e.
                let found : Dict.get text_discrete name registry.projections ≡ some c =
                  subst (λ n. Dict.get text_discrete n registry.projections ≡ some c) (sym e)
                    (named c old) in
                cc (Dict.has-get text_discrete name c registry.projections found, free) in
              Dict.get-put_ne text_discrete name (declared c).projection_name cls
                registry.projections other
              ∙ named c old
        ]),
      )

module _ (declared : Class → BaseProjection) (is_subclass : Class → Bool) where
  -- The registered classes are projections with a name, and every entry is one of them under its own
  -- name.
  abbrev pub IsCatalogue : ProjectionRegistry → Type 0
  IsCatalogue registry =
      IsRegistry declared registry
      × ((c : Class)
          → mem c registry.classes ≡ true
          → (is_subclass c ≡ true) × (str_eq (declared c).projection_name "" ≡ false))
      × ((name : String) (c : Class)
          → Dict.get text_discrete name registry.projections ≡ some c
          → (mem c registry.classes ≡ true) × ((declared c).projection_name ≡ name))

  -- A class that may be registered.
  abbrev pub IsAdmissible : ProjectionRegistry → Class → Type 0
  IsAdmissible registry cls =
      (is_subclass cls ≡ true)
      × (str_eq (declared cls).projection_name "" ≡ false)
      × (mem cls registry.classes ≡ false)
      × (Dict.has text_discrete (declared cls).projection_name registry.projections ≡ false)

  added-IsCatalogue :
      (registry : ProjectionRegistry) (cls : Class)
      → IsAdmissible registry cls
      → IsCatalogue registry
      → IsCatalogue (added declared registry cls)
  added-IsCatalogue registry cls (derives, has_name, new, free) (well, sound, own) =
      let name = (declared cls).projection_name in
      (
        added-IsRegistry declared registry cls new free well,
        (λ c h. elim (mem-snoc c cls registry.classes h) [
          | inl same ↦
              subst (λ x. (is_subclass x ≡ true) × (str_eq (declared x).projection_name "" ≡ false))
                same (derives, has_name)
          | inr old ↦ sound c old
        ]),
        (λ n c h. elim (text_discrete name n) [
          | yes e ↦
              let first : Dict.get text_discrete n
                    (Dict.put text_discrete name cls registry.projections)
                  ≡ some cls =
                subst
                  (λ k.
                    Dict.get text_discrete k (Dict.put text_discrete name cls registry.projections)
                    ≡ some cls)
                  e (Dict.get-put_self text_discrete name cls registry.projections) in
              let same : cls ≡ c = cc (first, h) in
              subst
                (λ x.
                  (mem x (registry.classes ++ cls ∷ []) ≡ true)
                  × ((declared x).projection_name ≡ n))
                same (mem-snoc_self cls registry.classes, e)
          | no ne ↦
              let (old, its) =
                own n c
                  (sym (Dict.get-put_ne text_discrete name n cls registry.projections ne) ∙ h) in
              (mem-snoc_old c cls registry.classes old, its)
        ]),
      )

  -- What registering a class in a registry gives.
  abbrev pub IsOutcome : ProjectionRegistry → Class → Result ProjectionRegistry → Type 0
  IsOutcome registry cls (ok registry') =
      IsAdmissible registry cls
      × (registry'.classes ≡ registry.classes ++ cls ∷ [])
      × (Dict.get text_discrete (declared cls).projection_name registry'.projections ≡ some cls)
      × IsCatalogue registry'
  IsOutcome registry cls (raise e) =
      ((e ≡ type_error) × (is_subclass cls ≡ false))
      ⊎ (((e ≡ value_error)
            × (is_subclass cls ≡ true)
            × (str_eq (declared cls).projection_name "" ≡ true))
          ⊎ ((e ≡ duplicate_projection)
              × (is_subclass cls ≡ true)
              × (str_eq (declared cls).projection_name "" ≡ false)
              × ((mem cls registry.classes ≡ true)
                  ⊎ (Dict.has text_discrete (declared cls).projection_name registry.projections
                      ≡ true))))

-- In a registry in which no class is registered twice, the registered classes are projections with a
-- name, and the entries are these classes, each under its own name, registering a class that is such a
-- projection, is not registered and has a free name adds it, it is found under its name, and all this
-- holds of the new registry. Only such a class is added. A class that is no projection raises
-- TypeError, another one without a name ValueError, and one that is registered or whose name is taken
-- DuplicateProjectionError.
pub register_projection-IsRegistry :
    (declared : Class → BaseProjection) (is_subclass : Class → Bool) (registry : ProjectionRegistry)
    (cls : Class)
    → IsCatalogue declared is_subclass registry
    → IsOutcome declared is_subclass registry cls
        (register_projection declared is_subclass registry cls)
unfolding register_projection
register_projection-IsRegistry declared is_subclass registry cls well =
    let name = (declared cls).projection_name in
    elim (Bool-cases (is_subclass cls)) [
      | inr s ↦ rw s (inl (refl, s))
      | inl s ↦ elim (Bool-cases (str_eq name "")) [
        | inl a ↦ rw (s, a) (inr (inl (refl, s, a)))
        | inr a ↦ elim (Bool-cases (mem cls registry.classes)) [
          | inl b ↦ rw (s, a, b) (inr (inr (refl, s, a, inl b)))
          | inr b ↦ elim (Bool-cases (Dict.has text_discrete name registry.projections)) [
            | inl c ↦ rw (s, a, b, c) (inr (inr (refl, s, a, inr c)))
            | inr c ↦
                rw (s, a, b, c)
                  (
                    (s, a, b, c),
                    refl,
                    Dict.get-put_self text_discrete name cls registry.projections,
                    added-IsCatalogue declared is_subclass registry cls (s, a, b, c) well,
                  )
          ]
        ]
      ]
    ]
