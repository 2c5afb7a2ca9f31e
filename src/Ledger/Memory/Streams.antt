-- ===== src/Ledger/Memory/Streams.antt =====
-- What an append of the in-memory ledger does to the streams and to the order over all of them.
use rationale_vault.Prelude.{
  ℕ, zero, suc, ◌+◌, ◌-◌, String, ◌≡◌, refl, ap, ◌∙◌, ◌≢◌, ◌⊎◌, inl, inr, List, [], ◌∷◌, ◌++◌, map,
  ok, raise, value_error, >>=-inv, arith, length, keep, keep-append, keep-eq_self, keep-eq_nil,
  All-map, Bool-cases, str_eq, text_discrete, eq_iff, ==_iff, ◌==◌, if◌then◌else◌,
}
use mathlib.Core.List.{append-nil, map-append}
use mathlib.Core.Option.{get_or}
use rationale_vault.Prelude.Dict
use rationale_vault.Prelude.Dict.{get-put_self, get-put_ne}
use rationale_vault.Ledger.{
  Envelope, Commit, CommitReceipt, LedgerEntry, Digests, to_entry, check_sequences, count_up,
}
use rationale_vault.Ledger.Memory.{MemoryLedger, current_sequence, append_events, read_stream}

-- The sequences of the events go up by one from `n`.
abbrev pub CountsFrom : {P T : Type 0} → ℕ → List (Envelope P T) → Type 0
CountsFrom n [] = Unit
CountsFrom n (e ∷ es) = (e.sequence ≡ n) × CountsFrom (suc n) es

count_up-append :
    (s n m t k : ℕ) → s + n ≡ t → n + m ≡ k → count_up s n ++ count_up t m ≡ count_up s k
count_up-append s zero m t k p q = let e : t ≡ s = omega arith in let f : m ≡ k = omega arith in cc
count_up-append s (suc n) m t zero p q = absurd (omega arith)
count_up-append s (suc n) m t (suc k) p q =
    ap (◌∷◌ s) (count_up-append (suc s) n m t k (omega arith) (omega arith))

module _ {P T : Type 0} where
  pub check_sequences-ok :
      (n : ℕ) (es : List (Envelope P T)) → CountsFrom n es → check_sequences n es ≡ ok tt
  unfolding check_sequences
  check_sequences-ok n [] h = refl
  check_sequences-ok n (e ∷ es) h = ground (arith, check_sequences-ok (suc n) es h.1)

  pub CountsFrom-of_ok :
      (n : ℕ) (es : List (Envelope P T)) → check_sequences n es ≡ ok tt → CountsFrom n es
  unfolding check_sequences
  CountsFrom-of_ok n [] h = tt
  CountsFrom-of_ok n (e ∷ es) h = ground (arith, CountsFrom-of_ok (suc n) es)

  pub check_sequences-raise :
      (n : ℕ) (es : List (Envelope P T))
      → ¬ CountsFrom n es
      → check_sequences n es ≡ raise value_error
  unfolding check_sequences
  check_sequences-raise n [] h = absurd (h tt)
  check_sequences-raise n (e ∷ es) h = elim (Bool-cases (e.sequence == n)) [
    | inl same ↦
        rw (same, check_sequences)
          (check_sequences-raise (suc n) es (λ rest. h ((==_iff _ _).0 same, rest)))
    | inr other ↦ rw (other, check_sequences)
  ]

  pub CountsFrom-cases : (n : ℕ) (es : List (Envelope P T)) → CountsFrom n es ⊎ (¬ CountsFrom n es)
  CountsFrom-cases n [] = inl tt
  CountsFrom-cases n (e ∷ es) = elim (Bool-cases (e.sequence == n)) [
    | inl same ↦ elim (CountsFrom-cases (suc n) es) [
      | inl rest ↦ inl ((==_iff _ _).0 same, rest)
      | inr gap ↦ inr (λ h. gap h.1)
    ]
    | inr other ↦ inr (λ h. cc (other, (==_iff e.sequence n).1 h.0))
  ]

abbrev pub IsContiguous : {P : Type 0} → MemoryLedger P → Type 0
IsContiguous ledger =
    (s : String)
    → map (λ e. e.sequence) (read_stream ledger s) ≡ count_up 1 (current_sequence ledger s)

-- The events of a commit follow on from the stream, and there is one at least.
abbrev pub Follows : {P T : Type 0} → MemoryLedger P → Commit P T → List (Envelope P T) → Type 0
Follows ledger commit es = (es ≢ []) × CountsFrom (current_sequence ledger commit.stream_id + 1) es

module _ {P T : Type 0} (digests : Digests P T) where
  -- The entries, the receipt and the ledger that a first append of `commit` gives.
  abbrev pub new_entries : MemoryLedger P → Commit P T → List (Envelope P T) → List (LedgerEntry P)
  new_entries ledger commit es =
      map (to_entry digests (λ payload. payload) commit ledger.next_global_order) es

  abbrev pub new_receipt : MemoryLedger P → Commit P T → List (Envelope P T) → CommitReceipt
  new_receipt ledger commit es = record {
    commit_id = commit.commit_id;
    stream_id = commit.stream_id;
    sequence_start = current_sequence ledger commit.stream_id + 1;
    sequence_end = current_sequence ledger commit.stream_id + length es;
    global_order = ledger.next_global_order;
  }

  abbrev pub after : MemoryLedger P → Commit P T → List (Envelope P T) → MemoryLedger P
  after ledger commit es = record {
    entries = ledger.entries ++ new_entries ledger commit es;
    commits = Dict.put text_discrete commit.commit_id (new_receipt ledger commit es) ledger.commits;
    stream_sequences =
        Dict.put text_discrete commit.stream_id
          (current_sequence ledger commit.stream_id + length es) ledger.stream_sequences;
    next_global_order = ledger.next_global_order + 1;
  }

  pub append_events-after :
      (ledger : MemoryLedger P) (commit : Commit P T) (es : List (Envelope P T))
      → Follows ledger commit es
      → append_events digests ledger commit es
        ≡ ok (new_receipt ledger commit es, after ledger commit es)
  unfolding append_events
  append_events-after ledger commit [] h = absurd (h.0 refl)
  append_events-after ledger commit (e ∷ es) h =
      let end : e.sequence + length (e ∷ es) - 1
          ≡ current_sequence ledger commit.stream_id + length (e ∷ es) =
        omega (arith, h.1.0) in
      rw (check_sequences-ok (current_sequence ledger commit.stream_id + 1) (e ∷ es) h.1)
        (rw (end, h.1.0) refl)

  -- What an append that succeeds was given.
  pub append_events-inv :
      (ledger : MemoryLedger P) (commit : Commit P T) (es : List (Envelope P T)) (r : CommitReceipt)
      (l : MemoryLedger P)
      → append_events digests ledger commit es ≡ ok (r, l)
      → Follows ledger commit es
  unfolding append_events
  append_events-inv ledger commit [] r l h = cc
  append_events-inv ledger commit (e ∷ es) r l h =
      ((λ p. cc p), CountsFrom-of_ok _ (e ∷ es) (>>=-inv _ _ h).1)

  new_entries_of_stream :
      (ledger : MemoryLedger P) (commit : Commit P T) (es : List (Envelope P T)) (s : String)
      → keep (λ e. str_eq e.stream_id s) (new_entries ledger commit es)
        ≡ (if str_eq commit.stream_id s then new_entries ledger commit es else [])
  unfolding to_entry
  new_entries_of_stream ledger commit es s = elim (Bool-cases (str_eq commit.stream_id s)) [
    | inl same ↦ rw same (keep-eq_self _ _ (All-map _ _ (λ e. same) es))
    | inr other ↦ rw other (keep-eq_nil _ _ (All-map _ _ (λ e. other) es))
  ]

  -- A first append adds its entries at the end of its stream and leaves the other streams alone.
  pub read_stream-after :
      (ledger : MemoryLedger P) (commit : Commit P T) (es : List (Envelope P T)) (s : String)
      → read_stream (after ledger commit es) s
        ≡ read_stream ledger s
          ++ (if str_eq commit.stream_id s then new_entries ledger commit es else [])
  unfolding read_stream
  read_stream-after ledger commit es s =
      keep-append _ ledger.entries (new_entries ledger commit es)
      ∙ ap (λ l. read_stream ledger s ++ l) (new_entries_of_stream ledger commit es s)

  pub current_sequence-after :
      (ledger : MemoryLedger P) (commit : Commit P T) (es : List (Envelope P T)) (s : String)
      → current_sequence (after ledger commit es) s ≡ (
          if str_eq commit.stream_id s
          then current_sequence ledger s + length es
          else current_sequence ledger s)
  current_sequence-after ledger commit es s = elim (Bool-cases (str_eq commit.stream_id s)) [
    | inl same ↦
        let e : commit.stream_id ≡ s = (eq_iff _ _).0 same in
        rw same (
          rw (← e) (
            ap (λ o. get_or o 0)
              (get-put_self text_discrete commit.stream_id _ ledger.stream_sequences)))
    | inr other ↦ rw other (
        ap (λ o. get_or o 0)
          (get-put_ne text_discrete commit.stream_id s _ ledger.stream_sequences
            (λ e. cc ((eq_iff commit.stream_id s).1 e))))
  ]

  new_sequences :
      (ledger : MemoryLedger P) (commit : Commit P T) (n : ℕ) (es : List (Envelope P T))
      → CountsFrom n es
      → map (λ e. e.sequence) (new_entries ledger commit es) ≡ count_up n (length es)
  unfolding to_entry
  new_sequences ledger commit n [] h = refl
  new_sequences ledger commit n (e ∷ es) h = cc (h.0, new_sequences ledger commit (suc n) es h.1)

  -- Every stream holds the sequences 1, 2, … up to its current one, in this order.
  pub IsContiguous-after :
      (ledger : MemoryLedger P) (commit : Commit P T) (es : List (Envelope P T))
      → IsContiguous ledger
      → Follows ledger commit es
      → IsContiguous (after ledger commit es)
  IsContiguous-after ledger commit es h f s = elim (Bool-cases (str_eq commit.stream_id s)) [
    | inl same ↦
        let e : commit.stream_id ≡ s = (eq_iff _ _).0 same in
        rw (read_stream-after ledger commit es s, current_sequence-after ledger commit es s, same)
          (rw (map-append, h s, new_sequences ledger commit _ es (rw e at f.1))
            (count_up-append 1 (current_sequence ledger s) (length es) _ _ (omega arith) refl))
    | inr other ↦
        rw (read_stream-after ledger commit es s, current_sequence-after ledger commit es s, other)
          (rw append-nil (h s))
  ]
