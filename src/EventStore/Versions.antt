-- ===== src/EventStore/Versions.antt =====
-- The versions that `append_event` of db/sqlite_store.py gives to the events of a project.
use rationale_vault.Prelude.{
  ℕ, suc, ◌+◌, max, String, Bool-cases, Option-cases, List, [], ◌∷◌, ◌++◌, map, ◌≡◌, refl, sym, ◌∙◌,
  ap, inl, inr, arith, keep, keep-append, eq_iff, length, length-map, max_of, str_eq, if◌then◌else◌,
}
use mathlib.Core.List.{map-append, append-nil}
use mathlib.Core.Option.{get_or}
use mathlib.Core.Path.{subst}
use rationale_vault.Events.{EventRecord}
use rationale_vault.EventStore.{
  EventTable, insert_event, no_events, of_project, get_event_count, next_version,
}
use rationale_vault.EventStore.Streams.{Grows, appended, same, append_event-inv}

-- n, n + 1, n + 2, …
abbrev pub CountsUp : ℕ → List ℕ → Type 0
CountsUp n [] = Unit
CountsUp n (x ∷ xs) = (x ≡ n) × CountsUp (suc n) xs

abbrev pub versions : EventTable → String → List ℕ
versions t project_id = map (λ e. e.version) (keep (of_project project_id) t.rows)

CountsUp-append :
    (n : ℕ) (xs : List ℕ) (x : ℕ) → CountsUp n xs → x ≡ n + length xs → CountsUp n (xs ++ x ∷ [])
CountsUp-append n [] x h e = (omega (arith, e), tt)
CountsUp-append n (y ∷ xs) x h e = (h.0, CountsUp-append (suc n) xs x h.1 (omega (arith, e)))

max_of-counts :
    (n : ℕ) (xs : List ℕ) → CountsUp (suc n) xs → max n (get_or (max_of xs) n) ≡ n + length xs
unfolding max_of
max_of-counts n [] h = omega arith
max_of-counts n (x ∷ xs) h = elim (Option-cases (max_of xs)) [
  | inl e ↦
      let g : max (suc n) (suc n) ≡ suc n + length xs =
        (let ih = max_of-counts (suc n) xs h.1 in rw e at ih) in
      rw e (omega (arith, g, h.0))
  | inr (m, e) ↦
      let g : max (suc n) m ≡ suc n + length xs =
        (let ih = max_of-counts (suc n) xs h.1 in rw e at ih) in
      rw e (omega (arith, g, h.0))
]

-- The next version of a project whose versions count up from 1.
next_version-counts :
    (t : EventTable) (project_id : String)
    → CountsUp 1 (versions t project_id)
    → next_version t.rows project_id ≡ get_event_count t project_id + 1
unfolding next_version get_event_count
next_version-counts t project_id h =
    let g = max_of-counts 0 (versions t project_id) h in
    let l = length-map (λ e. e.version) (keep (of_project project_id) t.rows) in omega (arith, g, l)

versions-insert :
    (t : EventTable) (event : EventRecord) (project_id : String)
    → versions (insert_event t event) project_id
      ≡ versions t project_id
        ++ (if str_eq event.project_id project_id then event.version ∷ [] else [])
versions-insert t event project_id =
    ap (map (λ e. e.version)) (keep-append (of_project project_id) t.rows (event ∷ []))
    ∙ map-append (λ e. e.version) (keep (of_project project_id) t.rows) _
    ∙ elim (Bool-cases (str_eq event.project_id project_id)) [
      | inl b ↦ rw b refl
      | inr b ↦ rw b refl
    ]

count-length :
    (t : EventTable) (project_id : String)
    → get_event_count t project_id ≡ length (versions t project_id)
unfolding get_event_count
count-length t project_id = sym (length-map (λ e. e.version) (keep (of_project project_id) t.rows))

versions-counts :
    (t : EventTable) (project_id : String) → Grows no_events t → CountsUp 1 (versions t project_id)
versions-counts _ project_id same = tt
versions-counts v project_id
      (appended event_project stream_id event_type payload metadata parent_id event_id recorded_at t
        _ event grown h) =
    let (made, stored) =
      append_event-inv t event_project stream_id event_type payload metadata parent_id event_id
        recorded_at v event h in
    let counts = versions-counts t project_id grown in
    let next : event.version ≡ next_version t.rows event_project = ap (λ e. e.version) made in
    let of_it : event.project_id ≡ event_project = ap (λ e. e.project_id) made in
    subst (λ w. CountsUp 1 (versions w project_id)) (sym stored)
      (subst (CountsUp 1) (sym (versions-insert t event project_id))
        (elim (Bool-cases (str_eq event.project_id project_id)) [
          | inl b ↦
              let e : event_project ≡ project_id = sym of_it ∙ (eq_iff _ _).0 b in
              let n = next_version-counts t project_id counts in
              let c = count-length t project_id in
              rw b (
                CountsUp-append 1 _ event.version counts
                  (next ∙ ap (next_version t.rows) e ∙ n ∙ omega (arith, c)))
          | inr b ↦ rw b (subst (CountsUp 1) (sym (append-nil _)) counts)
        ]))

-- In every table that appends make of an empty one, the versions of a project count up from 1
-- without gaps in the order of the rows, and its next version is one more than its event count.
pub append_event-versions :
    (t : EventTable) (project_id : String)
    → Grows no_events t
    → CountsUp 1 (versions t project_id)
      × (next_version t.rows project_id ≡ get_event_count t project_id + 1)
append_event-versions t project_id grown =
    let counts = versions-counts t project_id grown in
    (counts, next_version-counts t project_id counts)
