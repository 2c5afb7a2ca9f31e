-- ===== src/CognitiveHead/Engine/Snapshots.antt =====
-- What becomes of the snapshots that a compilation stores (snapshot.py, replay_engine.py and
-- compiler.py of cognitive_head/, `save_snapshot` of db/sqlite_store.py).
use rationale_vault.Prelude.{
  ℕ, String, false, Bool-cases, Option-cases, none, some, List, [], ◌∷◌, ok, ◌>>=◌, >>=-inv, ◌≡◌,
  ◌≢◌, refl, sym, ◌∙◌, inl, inr, eq_iff, str_eq, ltb, keep, All, All-keep, All-append,
  if◌then◌else◌,
}
use mathlib.Core.Path.{subst}
use rationale_vault.EventStore.{EventTable, get_latest_sequence}
use rationale_vault.CognitiveHead.Head.{CognitiveHead}
use rationale_vault.CognitiveHead.Payload.{
  PayloadBody, SnapshotPayload, to_dict, from_dict, validate_hash,
}
use rationale_vault.CognitiveHead.Snapshot.{
  SnapshotRow, SnapshotTable, SnapshotValidationResult, matches, latest_row, load_latest_raw,
  save_snapshot, should_snapshot, refresh_snapshot, validate, load_valid_snapshot,
  get_latest_snapshot_sequence,
}
use rationale_vault.CognitiveHead.Engine.{
  ReplayResult, full_replay, choose_replay, build_projection, snapshot_of, compile_cognitive_head,
}

-- The payload of the row has no hash.
abbrev pub IsHashless : SnapshotRow → Type 0
IsHashless row = row.payload.snapshot_hash ≡ none

-- The digest of a payload is never the empty text.
abbrev pub IsDigest : (PayloadBody → String) → Type 0
IsDigest digest = (p : PayloadBody) → digest p ≢ ""

All-latest_row :
    (P : SnapshotRow → Type 0) (rows : List SnapshotRow)
    → All P rows
    → (r : SnapshotRow) → latest_row rows ≡ some r
    → P r
unfolding latest_row
All-latest_row P [] all r h = cc h
All-latest_row P (q ∷ rows) all r h = elim (Option-cases (latest_row rows)) [
  | inl e ↦ let h' : some q ≡ some r = rw e at h in subst P (cc h') all.0
  | inr (s, e) ↦
      let h' : (if ltb q.sequence s.sequence then some s else some q) ≡ some r = rw e at h in
      elim (Bool-cases (ltb q.sequence s.sequence)) [
        | inl t ↦
            let g : some s ≡ some r = rw t at h' in subst P (cc g) (All-latest_row P rows all.1 s e)
        | inr t ↦ let g : some q ≡ some r = rw t at h' in subst P (cc g) all.0
      ]
]

str_eq-false : (s t : String) → s ≢ t → str_eq s t ≡ false
str_eq-false s t h = elim (Bool-cases (str_eq s t)) [
  | inl e ↦ absurd (h ((eq_iff s t).0 e))
  | inr e ↦ e
]

validate-false :
    (digest : PayloadBody → String) (p : SnapshotPayload) (latest_seq : ℕ)
    → IsDigest digest
    → p.snapshot_hash ≡ ""
    → (validate digest p latest_seq).valid ≡ false
unfolding validate validate_hash
validate-false digest p latest_seq real h =
    rw h (rw (str_eq-false "" (digest p.body) (λ e. real p.body (sym e))))

-- Over rows that all lack the hash, no load gives a valid snapshot.
load-rejected :
    (digest : PayloadBody → String) (table : SnapshotTable) (project_id projection_name : String)
    (latest_seq : ℕ)
    → IsDigest digest
    → All IsHashless table
    → (load_valid_snapshot digest table project_id projection_name latest_seq).valid ≡ false
unfolding load_valid_snapshot load_latest_raw from_dict
load-rejected digest table project_id projection_name latest_seq real all =
    elim (Option-cases (latest_row (keep (matches project_id projection_name) table))) [
      | inl e ↦ rw (e, load_valid_snapshot)
      | inr (r, e) ↦
          let hashless =
            All-latest_row IsHashless _
              (All-keep IsHashless (matches project_id projection_name) table all) r e in
          elim (Bool-cases (str_eq projection_name "cognitive_head")) [
            | inl t ↦
                rw (e, load_valid_snapshot)
                  (rw t (validate-false digest (from_dict r.payload) latest_seq real (rw hashless)))
            | inr t ↦ rw (e, load_valid_snapshot) (rw t)
          ]
    ]

refresh-IsHashless :
    (digest : PayloadBody → String) (threshold : ℕ) (table : SnapshotTable)
    (project_id projection_name : String) (head : SnapshotPayload) (current_sequence : ℕ)
    → All IsHashless table
    → All IsHashless
        (refresh_snapshot digest threshold table project_id projection_name head current_sequence)
unfolding refresh_snapshot save_snapshot to_dict
refresh-IsHashless digest threshold table project_id projection_name head current_sequence all =
    elim (Bool-cases (
      should_snapshot threshold current_sequence
        (get_latest_snapshot_sequence table project_id projection_name))) [
          | inl t ↦ rw t (All-append IsHashless table _ all (refl, tt))
          | inr t ↦ rw t all
        ]

-- A loaded result that is not valid is no reason to leave the full replay.
build-full :
    (table : EventTable) (project_id now : String) (loaded : SnapshotValidationResult)
    → loaded.valid ≡ false
    → build_projection table project_id now loaded ≡ full_replay table project_id now false 0
unfolding build_projection choose_replay
build-full table project_id now loaded h = rw h

-- A compilation over snapshots without hashes gives the head of a full replay, and stores no other.
compile-IsHashless :
    (digest : PayloadBody → String) (threshold : ℕ) (table : EventTable) (snapshots : SnapshotTable)
    (project_id now : String) (head : CognitiveHead) (snapshots' : SnapshotTable)
    → IsDigest digest
    → All IsHashless snapshots
    → compile_cognitive_head digest threshold table snapshots project_id now ≡ ok (head, snapshots')
    → All IsHashless snapshots'
      × ((result : ReplayResult) × (full_replay table project_id now false 0 ≡ ok result)
          × (result.head ≡ head))
unfolding compile_cognitive_head
compile-IsHashless digest threshold table snapshots project_id now head snapshots' real all h =
    let current_seq = get_latest_sequence table project_id in
    let loaded = load_valid_snapshot digest snapshots project_id "cognitive_head" current_seq in
    let store : SnapshotPayload → SnapshotTable = λ payload.
      refresh_snapshot digest threshold snapshots project_id "cognitive_head" payload current_seq in
    let (result, built, h1) =
      >>=-inv (build_projection table project_id now loaded)
        (λ result. do
          payload ← snapshot_of digest table project_id result.head
          ok (result.head, store payload))
        h in
    let (payload, _, h2) =
      >>=-inv (snapshot_of digest table project_id result.head)
        (λ payload. ok (result.head, store payload)) h1 in
    (
      subst (All IsHashless) (cc h2) (
          refresh-IsHashless digest threshold snapshots project_id "cognitive_head" payload
            current_seq all),
      (
        result,
        sym (
              build-full table project_id now loaded
                (load-rejected digest snapshots project_id "cognitive_head" current_seq real all))
            ∙ built,
        cc h2,
      ),
    )

-- The snapshots that can be stored: none at first, and then what compilations leave.
pub data Stored (digest : PayloadBody → String) : SnapshotTable → Type 0 where
  nothing : Stored digest []
  compiled :
      (threshold : ℕ) (table : EventTable) (project_id now : String) (head : CognitiveHead)
      (snapshots snapshots' : SnapshotTable)
      → Stored digest snapshots
      → compile_cognitive_head digest threshold table snapshots project_id now
        ≡ ok (head, snapshots')
      → Stored digest snapshots'

Stored-IsHashless :
    (digest : PayloadBody → String)
    → IsDigest digest
    → (snapshots : SnapshotTable) → Stored digest snapshots
    → All IsHashless snapshots
Stored-IsHashless digest real [] nothing = tt
Stored-IsHashless digest real snapshots'
      (compiled threshold table project_id now head snapshots _ stored h) =
    (compile-IsHashless digest threshold table snapshots project_id now head snapshots' real
      (Stored-IsHashless digest real snapshots stored) h).0

-- Whatever was compiled before, a stored snapshot is never found valid, so that a compilation that
-- gives a head gives that of a full replay. It asks that no digest is the empty text.
pub compile-replays_fully :
    (digest : PayloadBody → String) (threshold : ℕ) (table : EventTable) (snapshots : SnapshotTable)
    (project_id now : String) (head : CognitiveHead) (snapshots' : SnapshotTable)
    → IsDigest digest
    → Stored digest snapshots
    → compile_cognitive_head digest threshold table snapshots project_id now ≡ ok (head, snapshots')
    → ((load_valid_snapshot digest snapshots project_id "cognitive_head"
          (get_latest_sequence table project_id)).valid
        ≡ false)
      × ((result : ReplayResult) × (full_replay table project_id now false 0 ≡ ok result)
          × (result.head ≡ head))
compile-replays_fully digest threshold table snapshots project_id now head snapshots' real stored
      h =
    let all = Stored-IsHashless digest real snapshots stored in
    (
      load-rejected digest snapshots project_id "cognitive_head"
          (get_latest_sequence table project_id) real all,
      (compile-IsHashless digest threshold table snapshots project_id now head snapshots' real all
          h).1,
    )
