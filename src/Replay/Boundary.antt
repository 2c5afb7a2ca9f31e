-- ===== src/Replay/Boundary.antt =====
-- Replays up to a boundary, over a ledger that grows (replay/engine/default.py).
use rationale_vault.Prelude.{
  ℕ, ◌-◌, ◌≤◌, ◌<◌, String, true, List, [], ◌∷◌, ◌++◌, map, ok, ◌≡◌, ◌≢◌, refl, sym, ◌∙◌, ap, inl,
  inr, arith, keep, keep-append, keep-eq_self, keep-eq_nil, leb, le→leb, lt→leb, All, All-imp,
  All-map, All-of_map, max_of-bound, max_of-le,
}
use mathlib.Core.List.{append-nil}
use rationale_vault.Ledger.{Commit, CommitReceipt, Digests, Envelope, LedgerEntry, to_entry}
use rationale_vault.Ledger.Memory.{MemoryLedger, append, read_from}
use rationale_vault.Ledger.Memory.Streams.{new_entries}
use rationale_vault.Ledger.Memory.Append.{IsWellFormed, append-inv}
use rationale_vault.Replay.{
  Registry, compute_boundary, global_scope, read_entries, replay_entries, replay, replay_to,
}

module _ {P : Type 0} where
  All-to_orders :
      (Q : ℕ → Type 0) (es : List (LedgerEntry P))
      → All (λ e. Q e.global_order) es
      → All Q (map (λ e. e.global_order) es)
  All-to_orders Q [] h = tt
  All-to_orders Q (e ∷ es) h = (h.0, All-to_orders Q es h.1)

  read_from-zero : (l : MemoryLedger P) → read_from l 0 ≡ l.entries
  unfolding read_from
  read_from-zero l = keep-eq_self _ l.entries (always l.entries)
    where
      always : (es : List (LedgerEntry P)) → All (λ e. leb 0 e.global_order ≡ true) es
      always [] = tt
      always (e ∷ es) = (le→leb 0 e.global_order (omega arith), always es)

  boundary-bound : (es : List (LedgerEntry P)) → All (λ e. e.global_order ≤ compute_boundary es) es
  unfolding compute_boundary
  boundary-bound es =
      All-of_map (λ n. n ≤ compute_boundary es) (λ e. e.global_order) es
        (max_of-bound (map (λ e. e.global_order) es) (compute_boundary es) (omega arith))

  -- Over some entries whose orders are all below `n`, the boundary is too.
  boundary-below :
      (es : List (LedgerEntry P)) (n : ℕ)
      → es ≢ []
      → All (λ e. e.global_order < n) es
      → compute_boundary es < n
  unfolding compute_boundary
  boundary-below [] n h below = absurd (h refl)
  boundary-below (e ∷ es) n h below =
      let le = max_of-le (map (λ e. e.global_order) (e ∷ es)) (n - 1) (
        All-to_orders (λ k. k ≤ n - 1) (e ∷ es)
          (All-imp _ _ (λ e h. omega (arith, h)) (e ∷ es) below)) in
      let lt = below.0 in omega (arith, le, lt)

  -- Up to the boundary of some entries, those and others with later orders give them back.
  keep-boundary :
      (es more : List (LedgerEntry P)) (n : ℕ)
      → es ≢ []
      → All (λ e. e.global_order < n) es
      → All (λ e. e.global_order ≡ n) more
      → keep (λ e. leb e.global_order (compute_boundary es)) (es ++ more) ≡ es
  keep-boundary es more n some_there below later =
      let b = boundary-below es n some_there below in
      keep-append _ es more
      ∙ ap (λ l. l ++ keep (λ e. leb e.global_order (compute_boundary es)) more)
          (keep-eq_self _ es (
            All-imp _ _ (λ e h. le→leb e.global_order (compute_boundary es) h) es
              (boundary-bound es)))
      ∙ ap (λ l. es ++ l)
          (keep-eq_nil _ more (
            All-imp _ _ (λ e h. lt→leb e.global_order (compute_boundary es) (omega (arith, h, b)))
              more later))
      ∙ append-nil es

new_entries-order :
    {P T : Type 0} (digests : Digests P T) (ledger : MemoryLedger P) (commit : Commit P T)
    (es : List (Envelope P T))
    → All (λ e. e.global_order ≡ ledger.next_global_order) (new_entries digests ledger commit es)
unfolding to_entry
new_entries-order digests ledger commit es = All-map _ _ (λ e. refl) es

-- A replay of a well-formed ledger with entries can be repeated after a later append, of a known
-- commit or a new one: replaying up to its boundary gives the same projections, report and boundary,
-- or the same exception.
pub replay_to-append :
    {P T S : Type 0} (digests : Digests P T) (empty : S) (registry : Registry P S) (mode : String)
    (ledger : MemoryLedger P) (commit : Commit P T) (r : CommitReceipt) (ledger' : MemoryLedger P)
    → IsWellFormed ledger
    → ledger.entries ≢ []
    → append digests ledger commit ≡ ok (r, ledger')
    → replay_to empty registry ledger' (compute_boundary ledger.entries) mode
      ≡ replay empty registry ledger global_scope mode
unfolding replay_to replay read_entries
replay_to-append digests empty registry mode ledger commit r ledger' formed some_there h =
    let upto : List (LedgerEntry _) → List (LedgerEntry _) =
      keep (λ e. leb e.global_order (compute_boundary ledger.entries)) in
    let kept : upto ledger'.entries ≡ ledger.entries =
      (elim (append-inv digests ledger commit r ledger' h) [
        | inl (_, same) ↦
            ap (λ l. upto l.entries) same
            ∙ keep-eq_self _ ledger.entries (
                All-imp _ _ (λ e k. le→leb e.global_order (compute_boundary ledger.entries) k)
                  ledger.entries (boundary-bound ledger.entries))
        | inr (_, _, _, grown) ↦
            ap (λ l. upto l.entries) grown
            ∙ keep-boundary ledger.entries (new_entries digests ledger commit commit.events)
                ledger.next_global_order some_there formed.below_next
                (new_entries-order digests ledger commit commit.events)
      ]) in
    ap (replay_entries empty registry mode)
      (ap upto (read_from-zero ledger') ∙ kept ∙ sym (read_from-zero ledger))
