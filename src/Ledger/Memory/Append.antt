-- ===== src/Ledger/Memory/Append.antt =====
-- `MemoryLedger.append` as its callers see it: each branch, what it keeps, and what a later read or
-- a repeated append gives.
use rationale_vault.Prelude.{
  ◌+◌, ◌<◌, String, ◌≡◌, refl, sym, ◌∙◌, ◌≢◌, ◌⊎◌, inl, inr, none, some, List, [], ◌∷◌, ◌++◌, ok,
  raise, value_error, index_error, arith, keep-append, keep-eq_self, keep-eq_nil, All, All-append,
  All-imp, All-map, IsAscending, IsAscending-append, Option-cases, le→leb, lt→leb, str_eq,
  text_discrete, if◌then◌else◌, true,
}
use mathlib.Core.Path.{ap₂}
use rationale_vault.Prelude.Dict
use rationale_vault.Prelude.Dict.{get-put_self, get-put_ne, has-get, has-put_self}
use rationale_vault.Ledger.{Envelope, Commit, CommitReceipt, Digests, to_entry}
use rationale_vault.Ledger.Memory.{
  MemoryLedger, empty, current_sequence, append_events, append, read_stream, read_from, exists,
}
use rationale_vault.Ledger.Memory.Streams.{
  CountsFrom, check_sequences-raise, IsContiguous, IsContiguous-after, new_entries, new_receipt,
  after, Follows, append_events-after, append_events-inv, read_stream-after,
}

-- `commit` has not been appended yet.
abbrev pub IsNew : {P T : Type 0} → MemoryLedger P → Commit P T → Type 0
IsNew ledger commit = Dict.get text_discrete commit.commit_id ledger.commits ≡ none

pub record IsWellFormed {P : Type 0} (ledger : MemoryLedger P) : Type 0 where
  pub contiguous : IsContiguous ledger
  pub ascending : IsAscending (λ e. e.global_order) ledger.entries
  pub below_next : All (λ e. e.global_order < ledger.next_global_order) ledger.entries

module _ {P T : Type 0} (digests : Digests P T) where
  append_known :
      (ledger : MemoryLedger P) (commit : Commit P T) (receipt : CommitReceipt)
      → Dict.get text_discrete commit.commit_id ledger.commits ≡ some receipt
      → append digests ledger commit ≡ ok (receipt, ledger)
  unfolding append
  append_known ledger commit receipt h = rw (h, append)

  append_new :
      (ledger : MemoryLedger P) (commit : Commit P T)
      → IsNew ledger commit
      → append digests ledger commit ≡ append_events digests ledger commit commit.events
  unfolding append
  append_new ledger commit h = rw (h, append)

  append_gap :
      (ledger : MemoryLedger P) (commit : Commit P T) (es : List (Envelope P T))
      → es ≢ []
      → ¬ CountsFrom (current_sequence ledger commit.stream_id + 1) es
      → append_events digests ledger commit es ≡ raise value_error
  unfolding append_events
  append_gap ledger commit [] h gap = absurd (h refl)
  append_gap ledger commit (e ∷ es) h gap =
      rw (check_sequences-raise (current_sequence ledger commit.stream_id + 1) (e ∷ es) gap)

  -- The behaviour on every branch. A commit that is known gives its receipt and changes nothing. A
  -- new one without events raises IndexError, one whose sequences do not follow on from its stream
  -- raises ValueError, and any other is stored whole, with the sequences that it brought and the
  -- next global order in its receipt.
  pub append-branches :
      (ledger : MemoryLedger P) (commit : Commit P T)
      → ((receipt : CommitReceipt)
          → Dict.get text_discrete commit.commit_id ledger.commits ≡ some receipt
          → append digests ledger commit ≡ ok (receipt, ledger))
        × (IsNew ledger commit
            → commit.events ≡ []
            → append digests ledger commit ≡ raise index_error)
        × (IsNew ledger commit
            → commit.events ≢ []
            → ¬ CountsFrom (current_sequence ledger commit.stream_id + 1) commit.events
            → append digests ledger commit ≡ raise value_error)
        × (IsNew ledger commit
            → Follows ledger commit commit.events
            → append digests ledger commit
              ≡ ok (
                new_receipt digests ledger commit commit.events,
                after digests ledger commit commit.events,
              ))
  append-branches ledger commit = (
    append_known ledger commit,
    λ new nothing. append_new ledger commit new ∙ rw nothing (unfold append_events in refl),
    λ new some_there gap.
        append_new ledger commit new ∙ append_gap ledger commit commit.events some_there gap,
    λ new follows.
        append_new ledger commit new
        ∙ append_events-after digests ledger commit commit.events follows,
  )

  -- A success is the known receipt over the same ledger, or a first append.
  pub append-inv :
      (ledger : MemoryLedger P) (commit : Commit P T) (r : CommitReceipt) (l : MemoryLedger P)
      → append digests ledger commit ≡ ok (r, l)
      → ((Dict.get text_discrete commit.commit_id ledger.commits ≡ some r) × (l ≡ ledger))
        ⊎ (IsNew ledger commit
            × Follows ledger commit commit.events
            × (r ≡ new_receipt digests ledger commit commit.events)
            × (l ≡ after digests ledger commit commit.events))
  append-inv ledger commit r l h =
      elim (Option-cases (Dict.get text_discrete commit.commit_id ledger.commits)) [
        | inl new ↦
            let run = sym (append_new ledger commit new) ∙ h in
            let follows = append_events-inv digests ledger commit commit.events r l run in
            let result =
              sym run ∙ append_events-after digests ledger commit commit.events follows in
            inr (new, follows, cc result, cc result)
        | inr (known, e) ↦
            let result = sym h ∙ append_known ledger commit known e in
            inl (cc (result, e), cc result)
      ]

  read_from-after :
      (ledger : MemoryLedger P) (commit : Commit P T) (es : List (Envelope P T))
      → IsWellFormed ledger
      → read_from (after digests ledger commit es) ledger.next_global_order
        ≡ new_entries digests ledger commit es
  unfolding read_from to_entry
  read_from-after ledger commit es v =
      keep-append _ ledger.entries (new_entries digests ledger commit es)
      ∙ ap₂ ◌++◌
          (keep-eq_nil _ ledger.entries
            (All-imp _ _ (λ e h. lt→leb ledger.next_global_order e.global_order h) _ v.below_next))
          (keep-eq_self _ _ (All-map _ _ (λ e. le→leb _ _ (omega arith)) es))

  IsAscending-new :
      (ledger : MemoryLedger P) (commit : Commit P T) (es : List (Envelope P T))
      → IsAscending (λ e. e.global_order) (new_entries digests ledger commit es)
  unfolding to_entry
  IsAscending-new ledger commit [] = tt
  IsAscending-new ledger commit (e ∷ es) =
      (All-map _ _ (λ e. omega arith) es, IsAscending-new ledger commit es)

  IsWellFormed-after :
      (ledger : MemoryLedger P) (commit : Commit P T) (es : List (Envelope P T))
      → IsWellFormed ledger
      → Follows ledger commit es
      → IsWellFormed (after digests ledger commit es)
  unfolding to_entry
  IsWellFormed-after ledger commit es v f = record {
    contiguous = IsContiguous-after digests ledger commit es v.contiguous f;
    ascending =
        IsAscending-append _ ledger.entries _ v.ascending (IsAscending-new ledger commit es)
          (All-imp _ _ (λ x h. All-map _ _ (λ e. omega arith) es) ledger.entries v.below_next);
    below_next =
        All-append _ ledger.entries _ (All-imp _ _ (λ x h. omega arith) ledger.entries v.below_next)
          (All-map _ _ (λ e. omega arith) es);
  }

  -- Every append that succeeds keeps the ledger well-formed: each stream holds the sequences 1, 2, …
  -- in order, and the global orders do not go down and stay below the next one.
  pub append-IsWellFormed :
      (ledger : MemoryLedger P) (commit : Commit P T) (r : CommitReceipt) (l : MemoryLedger P)
      → IsWellFormed ledger
      → append digests ledger commit ≡ ok (r, l)
      → IsWellFormed l
  append-IsWellFormed ledger commit r l v h = elim (append-inv ledger commit r l h) [
    | inl known ↦ rw known.1 v
    | inr new ↦ rw new.3 (IsWellFormed-after ledger commit commit.events v new.1)
  ]

  known_after :
      (ledger : MemoryLedger P) (commit : Commit P T) (r : CommitReceipt) (l : MemoryLedger P)
      → append digests ledger commit ≡ ok (r, l)
      → Dict.get text_discrete commit.commit_id l.commits ≡ some r
  known_after ledger commit r l h = elim (append-inv ledger commit r l h) [
    | inl known ↦ rw known.1 known.0
    | inr new ↦ rw (new.2, new.3) (get-put_self text_discrete commit.commit_id _ ledger.commits)
  ]

  -- After a successful append the same commit may be appended again: the receipt is the same, the
  -- ledger does not change, and `exists` knows the commit.
  pub append_again :
      (ledger : MemoryLedger P) (commit : Commit P T) (r : CommitReceipt) (l : MemoryLedger P)
      → append digests ledger commit ≡ ok (r, l)
      → (append digests l commit ≡ ok (r, l)) × (exists l commit.commit_id ≡ true)
  unfolding exists
  append_again ledger commit r l h =
      let known = known_after ledger commit r l h in
      (append_known l commit r known, has-get text_discrete commit.commit_id r l.commits known)

  -- The first append of a commit to a well-formed ledger adds its entries at the end of its stream,
  -- leaves every other stream alone, and a reader who polls from the next global order of before
  -- gets exactly the new entries.
  pub append-reads :
      (ledger : MemoryLedger P) (commit : Commit P T) (r : CommitReceipt) (l : MemoryLedger P)
      → IsWellFormed ledger
      → IsNew ledger commit
      → append digests ledger commit ≡ ok (r, l)
      → ((s : String)
          → read_stream l s
            ≡ read_stream ledger s
              ++ (if str_eq commit.stream_id s
                  then new_entries digests ledger commit commit.events
                  else []))
        × (read_from l r.global_order ≡ new_entries digests ledger commit commit.events)
  append-reads ledger commit r l v new h = elim (append-inv ledger commit r l h) [
    | inl known ↦ cc (known.0, new)
    | inr added ↦
        rw (added.2, added.3)
          (
            read_stream-after digests ledger commit commit.events,
            read_from-after ledger commit commit.events v,
          )
  ]

-- The empty ledger is well-formed.
pub empty-IsWellFormed : {P : Type 0} → IsWellFormed (empty {P = P})
unfolding read_stream Dict.get
empty-IsWellFormed = record { contiguous = λ s. refl; ascending = tt; below_next = tt }
