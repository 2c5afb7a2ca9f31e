-- ===== src/EventStore/Streams.antt =====
-- The order of the event table (db/sqlite_store.py), and what a reader of a stream sees of events
-- that were appended later.
use rationale_vault.Prelude.{
  ℕ, ◌+◌, ◌≤◌, ◌<◌, String, Bool, true, false, Bool-cases, Option, List, [], ◌∷◌, ◌++◌, map, ok,
  raise, integrity_error, ◌≡◌, refl, sym, ◌∙◌, ap, inl, inr, arith, keep, keep-append, keep-eq_nil,
  All, All-of_keep, All-of_map, All-append, All-imp, All-keep, IsAscending, IsAscending-append,
  IsAscending-keep, order_by-eq_self, max_of-bound, max_of-le, some_of, str_eq,
}
use mathlib.Core.List.{append-nil, append_assoc}
use mathlib.Core.Path.{subst}
use rationale_vault.Value.{Payload}
use rationale_vault.Events.{EventRecord, EventType, EventMetadata}
use rationale_vault.EventStore.{
  EventTable, new_event, insert_event, of_project, since, append_event, get_project_stream,
  get_latest_sequence,
}

-- Rows stand in the order of their sequences, which start at 1 and were all used.
abbrev pub IsOrdered : EventTable → Type 0
IsOrdered t =
    All (λ e. (0 < e.event_sequence) × (e.event_sequence ≤ t.last_sequence)) t.rows
    × IsAscending (λ e. e.event_sequence) t.rows

-- The second table is the first one after some appends.
pub data Grows (t : EventTable) : EventTable → Type 0 where
  same : Grows t t
  appended :
      (project_id stream_id : String) (event_type : EventType) (payload : Payload)
      (metadata : EventMetadata) (parent_id : Option String) (event_id recorded_at : String)
      (u v : EventTable) (event : EventRecord)
      → Grows t u
      → append_event u project_id stream_id event_type payload metadata parent_id event_id
          recorded_at
        ≡ ok (event, v)
      → Grows t v

pub append_event-inv :
    (t : EventTable) (project_id stream_id : String) (event_type : EventType) (payload : Payload)
    (metadata : EventMetadata) (parent_id : Option String) (event_id recorded_at : String)
    (u : EventTable) (event : EventRecord)
    → append_event t project_id stream_id event_type payload metadata parent_id event_id recorded_at
      ≡ ok (event, u)
    → (event
        ≡ new_event t project_id stream_id event_type payload metadata parent_id event_id
            recorded_at)
      × (u ≡ insert_event t event)
unfolding append_event
append_event-inv t project_id stream_id event_type payload metadata parent_id event_id recorded_at u
      event h =
    let new =
      new_event t project_id stream_id event_type payload metadata parent_id event_id recorded_at in
    elim (Bool-cases (some_of (λ e. str_eq e.id event_id) t.rows)) [
      | inl b ↦ let h' : raise integrity_error ≡ ok (event, u) = rw b at h in absurd (cc h')
      | inr b ↦
          let h' : ok (new, insert_event t new) ≡ ok (event, u) = rw b at h in (cc h', (cc h'))
    ]

insert-IsOrdered :
    (t : EventTable) (e : EventRecord)
    → e.event_sequence ≡ t.last_sequence + 1
    → IsOrdered t
    → IsOrdered (insert_event t e)
insert-IsOrdered t e h (bounds, order) = (
  All-append _ t.rows (e ∷ [])
      (All-imp _ (λ r. (0 < r.event_sequence) × (r.event_sequence ≤ t.last_sequence + 1))
        (λ r b. (b.0, omega (arith, b.1))) t.rows bounds)
      ((omega arith, omega arith), tt),
  IsAscending-append _ t.rows (e ∷ []) order (tt, tt)
      (All-imp _ (λ r. All (λ y. r.event_sequence ≤ y.event_sequence) (e ∷ []))
        (λ r b. (omega (arith, b.1), tt)) t.rows bounds),
)

-- What was appended: rows behind the old ones, with sequences that were not used yet.
abbrev Extension : EventTable → EventTable → Type 0
Extension t u =
    (more : List EventRecord) × (u.rows ≡ t.rows ++ more)
    × All (λ e. t.last_sequence < e.event_sequence) more
    × (t.last_sequence ≤ u.last_sequence)

-- Every table that appends make of an ordered one is ordered, and holds the old rows in front.
pub Grows-Extension : (t u : EventTable) → IsOrdered t → Grows t u → IsOrdered u × Extension t u
Grows-Extension t _ ordered same = (ordered, ([], sym (append-nil t.rows), tt, omega arith))
Grows-Extension t v ordered
      (appended project_id stream_id event_type payload metadata parent_id event_id recorded_at u _
        event grown h) =
    let (u_ordered, (more, rows, later, le)) = Grows-Extension t u ordered grown in
    let (made, stored) =
      append_event-inv u project_id stream_id event_type payload metadata parent_id event_id
        recorded_at v event h in
    let sequence : event.event_sequence ≡ u.last_sequence + 1 = ap (λ e. e.event_sequence) made in
    (
      subst IsOrdered (sym stored) (insert-IsOrdered u event sequence u_ordered),
      (
        more ++ event ∷ [],
        ap (λ w. w.rows) stored
            ∙ ap (λ r. r ++ event ∷ []) rows
            ∙ append_assoc t.rows more (event ∷ []),
        All-append _ more (event ∷ []) later (omega (arith, le, sequence), tt),
        subst (λ w. t.last_sequence ≤ w.last_sequence) (sym stored) (omega (arith, le)),
      ),
    )

-- In an ordered table a stream is the rows that the query keeps, as they stand.
stream-ordered :
    (t : EventTable) (project_id : String) (n : ℕ)
    → IsOrdered t
    → get_project_stream t project_id n ≡ keep (since project_id n) t.rows
unfolding get_project_stream
stream-ordered t project_id n ordered =
    order_by-eq_self _ _ (IsAscending-keep _ (since project_id n) t.rows ordered.1)

-- No row of the project comes after its latest sequence.
rows-latest :
    (t : EventTable) (project_id : String)
    → All
        (λ e. of_project project_id e ≡ true → e.event_sequence ≤ get_latest_sequence t project_id)
        t.rows
unfolding get_latest_sequence
rows-latest t project_id = All-of_keep _ (of_project project_id) t.rows (
    All-of_map (λ x. x ≤ get_latest_sequence t project_id) (λ e. e.event_sequence)
      (keep (of_project project_id) t.rows)
      (max_of-bound (map (λ e. e.event_sequence) (keep (of_project project_id) t.rows))
        (get_latest_sequence t project_id) (omega arith)))

since-old :
    (project_id : String) (n : ℕ) (e : EventRecord)
    → (of_project project_id e ≡ true → e.event_sequence ≤ n)
    → since project_id n e ≡ false
since-old project_id n e h = elim (Bool-cases (of_project project_id e)) [
  | inl b ↦ let le = h b in rw b (ground (arith, le))
  | inr b ↦ rw b refl
]

All-to_map :
    (P : ℕ → Type 0) (f : EventRecord → ℕ) (rows : List EventRecord)
    → All (λ e. P (f e)) rows
    → All P (map f rows)
All-to_map P f [] h = tt
All-to_map P f (e ∷ rows) h = (h.0, All-to_map P f rows h.1)

latest-le :
    (t : EventTable) (project_id : String)
    → IsOrdered t
    → get_latest_sequence t project_id ≤ t.last_sequence
unfolding get_latest_sequence
latest-le t project_id ordered = max_of-le _ _ (
    All-to_map (λ n. n ≤ t.last_sequence) (λ e. e.event_sequence) _
      (All-keep _ (of_project project_id) t.rows
        (All-imp _ (λ e. e.event_sequence ≤ t.last_sequence) (λ e b. b.1) t.rows ordered.0)))

keep-same :
    (p q : EventRecord → Bool) (rows : List EventRecord)
    → All (λ e. p e ≡ q e) rows
    → keep p rows ≡ keep q rows
keep-same p q [] h = refl
keep-same p q (e ∷ rows) h = rw (h.0, keep-same p q rows h.1)

since-later :
    (project_id : String) (m n : ℕ) (e : EventRecord)
    → m < e.event_sequence
    → n < e.event_sequence
    → since project_id m e ≡ since project_id n e
since-later project_id m n e h k = elim (Bool-cases (of_project project_id e)) [
  | inl b ↦ rw b (ground arith)
  | inr b ↦ rw b refl
]

-- A reader who has the stream of a project up to its latest sequence, and asks later for what came
-- since, has with it the whole stream, whatever was appended in between.
pub get_project_stream-Grows :
    (t u : EventTable) (project_id : String)
    → IsOrdered t
    → Grows t u
    → get_project_stream u project_id 0
      ≡ get_project_stream t project_id 0
        ++ get_project_stream u project_id (get_latest_sequence t project_id)
get_project_stream-Grows t u project_id ordered grown =
    let (u_ordered, (more, rows, later, le)) = Grows-Extension t u ordered grown in
    let latest = get_latest_sequence t project_id in
    let bound = latest-le t project_id ordered in
    let old : keep (since project_id latest) t.rows ≡ [] =
      keep-eq_nil (since project_id latest) t.rows
        (All-imp _ _ (since-old project_id latest) t.rows (rows-latest t project_id)) in
    let new : keep (since project_id 0) more ≡ keep (since project_id latest) more =
      keep-same (since project_id 0) (since project_id latest) more (
        All-imp _ _
          (λ e h. since-later project_id 0 latest e (omega (arith, h)) (omega (arith, h, bound)))
          more later) in
    let rows_of : (n : ℕ)
        → get_project_stream u project_id n
          ≡ keep (since project_id n) t.rows ++ keep (since project_id n) more =
      λ n.
        stream-ordered u project_id n u_ordered
        ∙ ap (keep (since project_id n)) rows
        ∙ keep-append (since project_id n) t.rows more in
    let tail : get_project_stream u project_id latest ≡ keep (since project_id 0) more =
      rows_of latest ∙ ap (λ r. r ++ keep (since project_id latest) more) old ∙ sym new in
    rw (rows_of 0, tail, stream-ordered t project_id 0 ordered)
