-- ===== src/Ledger/Build.antt =====
-- `CommitBuilder.from_events` (ledger/commit.py): which lists of events make a commit.
use rationale_vault.Prelude.{
  ◌≤◌, String, ◌≡◌, refl, ◌≢◌, inl, inr, List, [], ◌∷◌, ok, raise, value_error, arith, ltb, length,
  ap, sym, ◌∙◌, ◌⊎◌, All, All-imp, Bool-cases, eq_iff,
}
use mathlib.Core.Path.{subst}
use rationale_vault.Ledger.{Envelope, Digests, add_text, experience_ids, from_events}

-- All events belong to the experience of the first one.
abbrev pub SameExperience : {P T : Type 0} → List (Envelope P T) → Type 0
SameExperience [] = Unit
SameExperience (e ∷ es) = All (λ x. x.experience_id ≡ e.experience_id) es

length-add_text : (x : String) (s : List String) → length s ≤ length (add_text x s)
unfolding add_text
length-add_text x [] = omega arith
length-add_text x (y ∷ s) = ground (arith, length-add_text x s)

add_text-same : (a b : String) → b ≡ a → add_text a (b ∷ []) ≡ a ∷ []
unfolding add_text
add_text-same a b h = ground (arith, eq_iff b a)

same_of_length : (a b : String) → length (add_text a (b ∷ [])) ≤ 1 → b ≡ a
unfolding add_text
same_of_length a b h = ground (arith, eq_iff b a)

module _ {P T : Type 0} where
  ids-eq_one :
      (e : Envelope P T) (es : List (Envelope P T))
      → SameExperience (e ∷ es)
      → experience_ids (e ∷ es) ≡ e.experience_id ∷ []
  unfolding experience_ids
  ids-eq_one e [] h = unfold add_text in refl
  ids-eq_one e (f ∷ es) h =
      ap (add_text e.experience_id) (
        ids-eq_one f es
          (All-imp _ (λ x. x.experience_id ≡ f.experience_id) (λ x p. p ∙ sym h.0) es h.1))
      ∙ add_text-same e.experience_id f.experience_id h.0

  one_id :
      (e : Envelope P T) (es : List (Envelope P T))
      → length (experience_ids (e ∷ es)) ≤ 1
      → SameExperience (e ∷ es)
  unfolding experience_ids
  one_id e [] h = tt
  one_id e (f ∷ es) h =
      let rest =
        one_id f es (omega (arith, h, length-add_text e.experience_id (experience_ids (f ∷ es)))) in
      let h' : length (add_text e.experience_id (f.experience_id ∷ [])) ≤ 1 =
        subst (λ ids. length (add_text e.experience_id ids) ≤ 1) (ids-eq_one f es rest) h in
      let same = same_of_length e.experience_id f.experience_id h' in
      (same, All-imp _ (λ x. x.experience_id ≡ e.experience_id) (λ x p. p ∙ same) es rest)

  -- A list that is not empty and whose events all belong to one experience makes a commit that holds
  -- it under the given stream and its digest; any other list raises ValueError.
  pub from_events-cases :
      (digests : Digests P T) (s : String) (es : List (Envelope P T))
      → ((es ≢ [])
          × SameExperience es
          × (from_events digests s es
              ≡ ok (record { commit_id = digests.commit_digest es; stream_id = s; events = es })))
        ⊎ ((¬ ((es ≢ []) × SameExperience es)) × (from_events digests s es ≡ raise value_error))
  unfolding from_events
  from_events-cases digests s [] = inr ((λ h. h.0 refl), refl)
  from_events-cases digests s (e ∷ es) =
      elim (Bool-cases (ltb 1 (length (experience_ids (e ∷ es))))) [
        | inl many ↦ inr (
          (λ h.
              let one : length (experience_ids (e ∷ es)) ≡ 1 = ap length (ids-eq_one e es h.1) in
              absurd (ground (arith, many, one))),
          rw many,
        )
        | inr single ↦ inl ((λ h. cc h), one_id e es (ground (arith, single)), rw single)
      ]
