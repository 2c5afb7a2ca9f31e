-- ===== src/Ledger/Refinement/Writes.antt =====
-- An append to the table does what the same append to the in-memory ledger does.
use mathlib.Core.List.{map-append, append_assoc, append-nil}
use mathlib.Core.Path.{subst, ap₂}
use rationale_vault.Prelude.{
  order_by, order_by-eq_self, max_of, max_of-append_some, ℕ, suc, ◌+◌, ◌-◌, ◌<◌, ◌≤◌, String, ◌≡◌,
  refl, sym, ap, ◌∙◌, ◌≢◌, inl, inr, some, List, [], ◌∷◌, ◌++◌, map, ok, Bool, true, false, arith,
  length, keep-append, keep-eq_self, keep-eq_nil, some_of, some_of-eq_false, All, All-append,
  All-map, All-imp, IsAscending, IsAscending-of_map, if◌then◌else◌, Bool-cases, str_eq,
  text_discrete, eq_iff,
}
use rationale_vault.Prelude.Dict
use rationale_vault.Prelude.Dict.{get-put_self, get-put_ne}
use rationale_vault.Ledger.{Envelope, Commit, CommitReceipt, Digests, to_entry, count_up}
use rationale_vault.Ledger.Memory.{MemoryLedger, current_sequence}
use rationale_vault.Ledger.Memory.Streams.{CountsFrom, Follows, new_entries, new_receipt, after}
use rationale_vault.Ledger.Memory.Append.{IsWellFormed, IsNew}
use rationale_vault.Ledger.Sqlite.{
  Row, SqliteLedger, rows_of_commit, stored_receipt, next_order, row_to_entry, insert,
  insert_events, write_events, same_key,
}
use rationale_vault.Ledger.Sqlite.Order.{max_of-count_up, IsAscending-count_up}
use rationale_vault.Ledger.Refinement.{Refines, StoredAs, orders_below, rows_below}

map-ne_nil {ℓ κ} : {A : Type ℓ} {B : Type κ} (f : A → B) (xs : List A) → xs ≢ [] → map f xs ≢ []
map-ne_nil f [] h = absurd (h refl)
map-ne_nil f (x ∷ xs) h = λ e. cc e

stored_receipt-of :
    (commit_id : String) (rows rest : List Row) (first : Row) {last : ℕ}
    → order_by (λ r. r.sequence) rows ≡ first ∷ rest
    → max_of (map (λ r. r.sequence) rows) ≡ some last
    → stored_receipt commit_id rows
      ≡ ok (record {
        commit_id = commit_id;
        stream_id = first.stream_id;
        sequence_start = first.sequence;
        sequence_end = last;
        global_order = first.global_order;
      })
unfolding stored_receipt
stored_receipt-of commit_id rows rest first p q = rw (p, q, stored_receipt)

module _ {P T : Type 0} (digests : Digests P T) (dumps : P → String) (loads : String → P)
    (json : (p : P) → loads (dumps p) ≡ p) where
  abbrev pub new_rows : Commit P T → ℕ → List (Envelope P T) → List Row
  new_rows commit g es = map (to_entry digests dumps commit g) es

  free_key :
      (row : Row) (rows : List Row)
      → All (λ r. str_eq r.stream_id row.stream_id ≡ true → r.sequence < row.sequence) rows
      → some_of (λ r. same_key r row) rows ≡ false
  free_key row rows h =
      some_of-eq_false (λ r. same_key r row) rows
        (All-imp _ (λ r. same_key r row ≡ false) (λ r below. ground (arith, below)) rows h)

  insert-ok :
      (row : Row) (rows : List Row)
      → All (λ r. str_eq r.stream_id row.stream_id ≡ true → r.sequence < row.sequence) rows
      → insert row rows ≡ ok (rows ++ row ∷ [])
  unfolding insert
  insert-ok row rows h = rw (free_key row rows h, insert)

  -- The rows of the stream lie below `n`.
  abbrev Below : Commit P T → ℕ → List Row → Type 0
  Below commit n = All (λ r. str_eq r.stream_id commit.stream_id ≡ true → r.sequence < n)

  insert_row-ok :
      (commit : Commit P T) (g n : ℕ) (e : Envelope P T) (rows : List Row)
      → e.sequence ≡ n
      → Below commit n rows
      → (insert (to_entry digests dumps commit g e) rows
          ≡ ok (rows ++ to_entry digests dumps commit g e ∷ []))
        × Below commit (suc n) (rows ++ to_entry digests dumps commit g e ∷ [])
  unfolding to_entry
  insert_row-ok commit g n e rows p below = (
    insert-ok (to_entry digests dumps commit g e) rows
        (All-imp _ _ (λ r b s. omega (arith, b s)) rows below),
    All-append _ rows _ (All-imp _ _ (λ r b s. omega (arith, b s)) rows below)
        ((λ _. omega arith), tt),
  )

  -- No row has the key of a new one, so the insertions all succeed.
  insert_events-ok :
      (commit : Commit P T) (g n : ℕ) (es : List (Envelope P T)) (rows : List Row)
      → Below commit n rows
      → CountsFrom n es
      → insert_events digests dumps commit g es rows ≡ ok (rows ++ new_rows commit g es)
  unfolding insert_events
  insert_events-ok commit g n [] rows below h = ap ok (sym (append-nil rows))
  insert_events-ok commit g n (e ∷ es) rows below h =
      let step = insert_row-ok commit g n e rows h.0 below in
      rw (step.0, insert_events)
        (insert_events-ok commit g (suc n) es _ step.1 h.1
          ∙ ap ok (append_assoc rows (to_entry digests dumps commit g e ∷ []) _))

  new_sequences :
      (commit : Commit P T) (g n : ℕ) (es : List (Envelope P T))
      → CountsFrom n es
      → map (λ r. r.sequence) (new_rows commit g es) ≡ count_up n (length es)
  unfolding to_entry
  new_sequences commit g n [] h = refl
  new_sequences commit g n (e ∷ es) h = cc (h.0, new_sequences commit g (suc n) es h.1)

  -- The stored rows of a commit give back its receipt.
  stored_receipt-new :
      (m : MemoryLedger P) (commit : Commit P T) (es : List (Envelope P T))
      → Follows m commit es
      → stored_receipt commit.commit_id (new_rows commit m.next_global_order es)
        ≡ ok (new_receipt digests m commit es)
  unfolding to_entry
  stored_receipt-new m commit [] h = absurd (h.0 refl)
  stored_receipt-new m commit (e ∷ es) h =
      let n = current_sequence m commit.stream_id + 1 in
      let sequences = new_sequences commit m.next_global_order n (e ∷ es) h.1 in
      let in_order =
        IsAscending-of_map (λ k. k) (λ (r : Row). r.sequence)
          (new_rows commit m.next_global_order (e ∷ es))
          (subst (IsAscending (λ k. k)) (sym sequences)
            (IsAscending-count_up n (length (e ∷ es)))) in
      stored_receipt-of commit.commit_id _ _ _ (order_by-eq_self _ _ in_order)
        (ap max_of sequences ∙ max_of-count_up n (length es))
      ∙ ap ok (receipt_eq h.1.0 (omega arith))
    where
      receipt_eq :
          {a b c d : ℕ}
          → a ≡ b
          → c ≡ d
          → ◌≡◌ {A = CommitReceipt}
              (record {
                commit_id = commit.commit_id;
                stream_id = commit.stream_id;
                sequence_start = a;
                sequence_end = c;
                global_order = m.next_global_order;
              })
              (record {
                commit_id = commit.commit_id;
                stream_id = commit.stream_id;
                sequence_start = b;
                sequence_end = d;
                global_order = m.next_global_order;
              })
      receipt_eq p q = ground arith

  pub IsNew-rows :
      {m : MemoryLedger P} {t : SqliteLedger} (r : Refines loads m t) (commit : Commit P T)
      → IsNew m commit
      → rows_of_commit t.rows commit.commit_id ≡ []
  IsNew-rows {m} {t} r commit new =
      subst (λ o. StoredAs commit.commit_id o (rows_of_commit t.rows commit.commit_id)) new
        (r.receipts commit.commit_id)

  rows_of_commit-new :
      (rows : List Row) (commit : Commit P T) (g : ℕ) (es : List (Envelope P T)) (cid : String)
      (b : Bool)
      → str_eq commit.commit_id cid ≡ b
      → rows_of_commit (rows ++ new_rows commit g es) cid
        ≡ rows_of_commit rows cid ++ (if b then new_rows commit g es else [])
  unfolding to_entry
  rows_of_commit-new rows commit g es cid true h =
      keep-append _ rows _
      ∙ ap (λ l. rows_of_commit rows cid ++ l) (keep-eq_self _ _ (All-map _ _ (λ e. h) es))
  rows_of_commit-new rows commit g es cid false h =
      keep-append _ rows _
      ∙ ap (λ l. rows_of_commit rows cid ++ l) (keep-eq_nil _ _ (All-map _ _ (λ e. h) es))

  StoredAs-new :
      {m : MemoryLedger P} {t : SqliteLedger} (r : Refines loads m t) (commit : Commit P T)
      (es : List (Envelope P T))
      → IsNew m commit
      → Follows m commit es
      → (cid : String)
      → StoredAs cid
          (Dict.get text_discrete cid (after digests m commit es).commits)
          (rows_of_commit (t.rows ++ new_rows commit m.next_global_order es) cid)
  StoredAs-new {m} {t} r commit es new f cid = elim (Bool-cases (str_eq commit.commit_id cid)) [
    | inl same ↦
        let e : commit.commit_id ≡ cid = (eq_iff _ _).0 same in
        rw
          (
            rows_of_commit-new t.rows commit m.next_global_order es cid true same,
            ← e,
            get-put_self text_discrete commit.commit_id (new_receipt digests m commit es) m.commits,
            IsNew-rows r commit new,
          )
          (map-ne_nil _ es f.0, stored_receipt-new m commit es f)
    | inr other ↦
        rw
          (
            rows_of_commit-new t.rows commit m.next_global_order es cid false other,
            append-nil,
            get-put_ne text_discrete commit.commit_id cid (new_receipt digests m commit es)
                m.commits (λ e. cc ((eq_iff commit.commit_id cid).1 e)),
          )
          (r.receipts cid)
  ]

  max_of-orders :
      (commit : Commit P T) (g : ℕ) (es : List (Envelope P T))
      → es ≢ []
      → max_of (map (λ r. r.global_order) (new_rows commit g es)) ≡ some g
  unfolding max_of to_entry
  max_of-orders commit g [] h = absurd (h refl)
  max_of-orders commit g (e ∷ []) h = refl
  max_of-orders commit g (e ∷ f ∷ es) h =
      ground (arith, max_of-orders commit g (f ∷ es) (λ p. cc p))

  next_order-new :
      (rows : List Row) (commit : Commit P T) (g : ℕ) (es : List (Envelope P T))
      → es ≢ []
      → All (λ r. r.global_order < g) rows
      → next_order (rows ++ new_rows commit g es) ≡ g + 1
  unfolding next_order
  next_order-new rows commit g es h below = rw (
    map-append (λ r. r.global_order) rows (new_rows commit g es),
    max_of-append_some (map (λ r. r.global_order) rows) _ g (max_of-orders commit g es h)
        (All-of_rows rows below),
    next_order,
  )
    where
      All-of_rows :
          (rows : List Row)
          → All (λ r. r.global_order < g) rows
          → All (λ k. k ≤ g) (map (λ r. r.global_order) rows)
      All-of_rows [] h = tt
      All-of_rows (r ∷ rows) h = (omega (arith, h.0), All-of_rows rows h.1)

  entries-new :
      (m : MemoryLedger P) (commit : Commit P T) (es : List (Envelope P T))
      → map (row_to_entry loads) (new_rows commit m.next_global_order es)
        ≡ new_entries digests m commit es
  unfolding to_entry row_to_entry
  entries-new m commit [] = refl
  entries-new m commit (e ∷ es) = cc (json e.payload, entries-new m commit es)

  pub Refines-after :
      {m : MemoryLedger P} {t : SqliteLedger} (r : Refines loads m t) (commit : Commit P T)
      (es : List (Envelope P T))
      → IsWellFormed m
      → IsNew m commit
      → Follows m commit es
      → Refines loads
          (after digests m commit es)
          (record { rows = t.rows ++ new_rows commit m.next_global_order es })
  Refines-after {m} {t} r commit es v new f = record {
    entries = map-append _ t.rows _ ∙ ap₂ ◌++◌ r.entries (entries-new m commit es);
    receipts = StoredAs-new r commit es new f;
    next = next_order-new t.rows commit m.next_global_order es f.0 (orders_below r v);
  }

  pub write_events-ok :
      {m : MemoryLedger P} {t : SqliteLedger} (r : Refines loads m t) (commit : Commit P T)
      (es : List (Envelope P T))
      → IsWellFormed m
      → Follows m commit es
      → write_events digests dumps t commit es
        ≡ ok (
          new_receipt digests m commit es,
          record { rows = t.rows ++ new_rows commit m.next_global_order es },
        )
  unfolding write_events
  write_events-ok r commit [] v f = absurd (f.0 refl)
  write_events-ok {m} {t} r commit (e ∷ es) v f =
      let end : e.sequence + length (e ∷ es) - 1
          ≡ current_sequence m commit.stream_id + length (e ∷ es) =
        omega (arith, f.1.0) in
      rw
        (
          r.next,
          insert_events-ok commit m.next_global_order _ (e ∷ es) t.rows
              (rows_below r v.contiguous commit.stream_id) f.1,
          end,
          f.1.0,
        )
        refl
