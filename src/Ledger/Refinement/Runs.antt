-- ===== src/Ledger/Refinement/Runs.antt =====
-- The two backends side by side over any sequence of appends, as a client that goes on after an
-- error sees them.
use mathlib.Core.List.{head?}
use mathlib.Core.Path.{subst, subst₂, ap₂}
use rationale_vault.Prelude.{
  max_of, ℕ, ◌+◌, String, ◌≡◌, refl, sym, ap, ◌∙◌, ◌≢◌, inl, inr, some, List, [], ◌∷◌, Result, ok,
  raise, index_error, ◌>>=◌, Option-cases, List-cases, text_discrete,
}
use rationale_vault.Prelude.Dict
use rationale_vault.Ledger.{Envelope, Commit, CommitReceipt, Digests, check_sequences}
use rationale_vault.Ledger.Memory
use rationale_vault.Ledger.Memory.{MemoryLedger, current_sequence}
use rationale_vault.Ledger.Memory.Streams.{
  CountsFrom-cases, check_sequences-ok, check_sequences-raise,
}
use rationale_vault.Ledger.Memory.Append.{
  IsWellFormed, IsNew, append-branches, append-IsWellFormed, empty-IsWellFormed,
}
use rationale_vault.Ledger.Sqlite
use rationale_vault.Ledger.Sqlite.{
  Row, SqliteLedger, rows_of_commit, stored_receipt, last_sequence, next_order, write_events,
}
use rationale_vault.Ledger.Refinement.{
  Refines, StoredAs, last_sequence-eq, read_stream-eq, read_from-eq, exists-eq, stream_exists-eq,
}
use rationale_vault.Ledger.Refinement.Writes.{IsNew-rows, write_events-ok, Refines-after}

-- The outcomes agree: the same error, or the same receipt and states that are related.
abbrev pub Agrees :
    {P : Type 0}
    → (String → P)
    → Result (CommitReceipt × MemoryLedger P)
    → Result (CommitReceipt × SqliteLedger)
    → Type 0
Agrees loads (ok (r, m)) (ok (r', t)) = (r' ≡ r) × Refines loads m t
Agrees loads (raise e) (raise e') = e' ≡ e
Agrees loads _ _ = ⊥

-- `try: … except …`, with the ledger that is left.
abbrev pub attempt : {L : Type 0} → Result (CommitReceipt × L) → L → Result CommitReceipt × L
attempt (ok (receipt, ledger')) ledger = (ok receipt, ledger')
attempt (raise e) ledger = (raise e, ledger)

-- Appends the commits one after another and collects the outcomes.
abbrev pub run :
    {C L : Type 0}
    → (L → C → Result (CommitReceipt × L))
    → L
    → List C
    → List (Result CommitReceipt) × L
run append ledger [] = ([], ledger)
run append ledger (commit ∷ commits) =
    let (outcome, ledger') = attempt (append ledger commit) ledger in
    let (outcomes, final) = run append ledger' commits in (outcome ∷ outcomes, final)

module _ {P T : Type 0} (digests : Digests P T) (dumps : P → String) (loads : String → P)
    (json : (p : P) → loads (dumps p) ≡ p) where
  append_stored :
      (t : SqliteLedger) (commit : Commit P T) (receipt : CommitReceipt)
      → StoredAs commit.commit_id (some receipt) (rows_of_commit t.rows commit.commit_id)
      → Sqlite.append digests dumps t commit ≡ ok (receipt, t)
  unfolding Sqlite.append
  append_stored t commit receipt h = rw ((head-some _ h.0).1, Sqlite.append) (rw h.1)
    where
      head-some : (rows : List Row) → rows ≢ [] → (row : Row) × (head? rows ≡ some row)
      head-some [] h = absurd (h refl)
      head-some (row ∷ rows) h = (row, refl)

  append_not_stored :
      {m : MemoryLedger P} {t : SqliteLedger} (r : Refines loads m t) (commit : Commit P T)
      → IsWellFormed m
      → IsNew m commit
      → Sqlite.append digests dumps t commit ≡ (
          check_sequences (current_sequence m commit.stream_id + 1) commit.events >>= λ _.
          write_events digests dumps t commit commit.events)
  unfolding Sqlite.append
  append_not_stored {m} {t} r commit v new =
      rw (IsNew-rows digests dumps loads json r commit new, Sqlite.append)
        (rw (last_sequence-eq r v.contiguous commit.stream_id))

  write_nothing :
      (t : SqliteLedger) (commit : Commit P T) (n : ℕ) (es : List (Envelope P T))
      → es ≡ []
      → (check_sequences n es >>= λ _. write_events digests dumps t commit es) ≡ raise index_error
  unfolding check_sequences write_events
  write_nothing t commit n [] h = refl
  write_nothing t commit n (e ∷ es) h = cc h

  Agrees-of :
      {a a' : Result (CommitReceipt × MemoryLedger P)}
      {b b' : Result (CommitReceipt × SqliteLedger)}
      → a ≡ a'
      → b ≡ b'
      → Agrees loads a' b'
      → Agrees loads a b
  Agrees-of p q h = subst₂ (Agrees loads) (sym p) (sym q) h

  -- One append on related states has the same outcome on both sides, and leaves related states.
  pub append-Agrees :
      {m : MemoryLedger P} {t : SqliteLedger} (r : Refines loads m t) (commit : Commit P T)
      → IsWellFormed m
      → Agrees loads (Memory.append digests m commit) (Sqlite.append digests dumps t commit)
  append-Agrees {m} {t} r commit v =
      let branches = append-branches digests m commit in
      let n = current_sequence m commit.stream_id + 1 in
      elim (Option-cases (Dict.get text_discrete commit.commit_id m.commits)) [
        | inr (receipt, known) ↦
            Agrees-of (branches.0 receipt known)
              (append_stored t commit receipt (
                subst (λ o. StoredAs commit.commit_id o (rows_of_commit t.rows commit.commit_id))
                  known (r.receipts commit.commit_id)))
              (refl, r)
        | inl new ↦
            let stored = append_not_stored r commit v new in
            elim (List-cases commit.events) [
              | inl nothing ↦
                  Agrees-of (branches.1 new nothing)
                    (stored ∙ write_nothing t commit n commit.events nothing) refl
              | inr events ↦ elim (CountsFrom-cases n commit.events) [
                | inr gap ↦
                    Agrees-of (branches.2 new events gap)
                      (stored
                        ∙ ap (λ o. o >>= λ _. write_events digests dumps t commit commit.events)
                            (check_sequences-raise n commit.events gap))
                      refl
                | inl counts ↦
                    Agrees-of (branches.3 new (events, counts))
                      (stored
                        ∙ ap (λ o. o >>= λ _. write_events digests dumps t commit commit.events)
                            (check_sequences-ok n commit.events counts)
                        ∙ write_events-ok digests dumps loads json r commit commit.events v
                            (events, counts))
                      (
                        refl,
                        Refines-after digests dumps loads json r commit commit.events v new
                            (events, counts),
                      )
              ]
            ]
      ]

  abbrev memory_run :
      MemoryLedger P → List (Commit P T) → List (Result CommitReceipt) × MemoryLedger P
  memory_run = run (Memory.append digests)

  abbrev sqlite_run : SqliteLedger → List (Commit P T) → List (Result CommitReceipt) × SqliteLedger
  sqlite_run = run (Sqlite.append digests dumps)

  abbrev RunsAgree :
      (a : List (Result CommitReceipt) × MemoryLedger P)
      (b : List (Result CommitReceipt) × SqliteLedger)
      → Type 0
  RunsAgree a b = (b.0 ≡ a.0) × Refines loads a.1 b.1 × IsWellFormed a.1

  attempt-Agrees :
      {m : MemoryLedger P} {t : SqliteLedger} (r : Refines loads m t) (v : IsWellFormed m)
      (a : Result (CommitReceipt × MemoryLedger P)) (b : Result (CommitReceipt × SqliteLedger))
      → ((receipt : CommitReceipt) (m' : MemoryLedger P) → a ≡ ok (receipt, m') → IsWellFormed m')
      → Agrees loads a b
      → ((attempt b t).0 ≡ (attempt a m).0)
        × Refines loads (attempt a m).1 (attempt b t).1
        × IsWellFormed (attempt a m).1
  attempt-Agrees r v (ok (x, m')) (ok (y, t')) keeps h = (ap ok h.0, h.1, keeps x m' refl)
  attempt-Agrees r v (ok x) (raise e) keeps h = absurd h
  attempt-Agrees r v (raise e) (ok x) keeps h = absurd h
  attempt-Agrees r v (raise e) (raise e') keeps h = (ap raise h, r, v)

  run-Agrees :
      (m : MemoryLedger P) (t : SqliteLedger) (commits : List (Commit P T))
      → Refines loads m t
      → IsWellFormed m
      → RunsAgree (memory_run m commits) (sqlite_run t commits)
  run-Agrees m t [] r v = (refl, r, v)
  run-Agrees m t (commit ∷ commits) r v =
      let step =
        attempt-Agrees r v (Memory.append digests m commit) (Sqlite.append digests dumps t commit)
          (λ receipt m' h. append-IsWellFormed digests m commit receipt m' v h)
          (append-Agrees r commit v) in
      let rest =
        run-Agrees (attempt (Memory.append digests m commit) m).1
          (attempt (Sqlite.append digests dumps t commit) t).1 commits step.1 step.2 in
      (ap₂ ◌∷◌ step.0 rest.0, rest.1, rest.2)

  Refines-empty : Refines loads (Memory.empty {P = P}) Sqlite.empty
  unfolding Dict.get next_order max_of
  Refines-empty = record { entries = refl; receipts = λ cid. refl; next = refl }

  -- From empty ledgers, whatever the commits, known ones and ones that raise included, the table
  -- gives the outcomes of the in-memory ledger, and afterwards every read gives the same answer.
  pub runs_agree :
      (commits : List (Commit P T))
      → ((sqlite_run Sqlite.empty commits).0 ≡ (memory_run Memory.empty commits).0)
        × ((s : String)
            → Sqlite.read_stream loads (sqlite_run Sqlite.empty commits).1 s
              ≡ Memory.read_stream (memory_run Memory.empty commits).1 s)
        × ((n : ℕ)
            → Sqlite.read_from loads (sqlite_run Sqlite.empty commits).1 n
              ≡ Memory.read_from (memory_run Memory.empty commits).1 n)
        × ((id : String)
            → Sqlite.exists (sqlite_run Sqlite.empty commits).1 id
              ≡ Memory.exists (memory_run Memory.empty commits).1 id)
        × ((s : String)
            → Sqlite.stream_exists (sqlite_run Sqlite.empty commits).1 s
              ≡ Memory.stream_exists (memory_run Memory.empty commits).1 s)
  runs_agree commits =
      let agree = run-Agrees Memory.empty Sqlite.empty commits Refines-empty empty-IsWellFormed in
      (
        agree.0,
        read_stream-eq agree.1 agree.2.contiguous,
        read_from-eq agree.1 agree.2,
        exists-eq agree.1,
        stream_exists-eq agree.1,
      )
