-- ===== src/Session/Registry.antt =====
-- Lookups after an update of the session registry (runtime/session_registry.py).
use rationale_vault.Prelude.{
  String, true, false, Bool-cases, Option, none, some, List, [], ◌∷◌, map, ◌≡◌, refl, sym, ap, ◌∙◌,
  inl, inr, str_eq, eq_iff, if◌then◌else◌,
}
use rationale_vault.Session.{
  AgentSession, SessionRegistry, find_session, get_session, update_session,
}

-- What a lookup gives after an update: the new session under its id where there was one.
abbrev pub replaced : AgentSession → String → Option AgentSession → Option AgentSession
replaced s session_id none = none
replaced s session_id (some old) = some (if str_eq s.session_id session_id then s else old)

find-replaced :
    (s : AgentSession) (session_id : String) (sessions : List AgentSession)
    → find_session session_id
        (map (λ t. if str_eq t.session_id s.session_id then s else t) sessions)
      ≡ replaced s session_id (find_session session_id sessions)
unfolding find_session
find-replaced s session_id [] = refl
find-replaced s session_id (t ∷ sessions) = elim (Bool-cases (str_eq t.session_id s.session_id)) [
  | inl e ↦
      let same : t.session_id ≡ s.session_id = (eq_iff t.session_id s.session_id).0 e in
      let test : str_eq t.session_id session_id ≡ str_eq s.session_id session_id =
        ap (λ n. str_eq n session_id) same in
      elim (Bool-cases (str_eq s.session_id session_id)) [
        | inl f ↦ let f' : str_eq t.session_id session_id ≡ true = test ∙ f in rw (e, f, f', f) refl
        | inr f ↦
            let f' : str_eq t.session_id session_id ≡ false = test ∙ f in
            rw (e, f, f') (find-replaced s session_id sessions)
      ]
  | inr e ↦ elim (Bool-cases (str_eq t.session_id session_id)) [
    | inr g ↦ rw (e, g) (find-replaced s session_id sessions)
    | inl g ↦
        let same : t.session_id ≡ session_id = (eq_iff t.session_id session_id).0 g in
        let apart : str_eq s.session_id session_id ≡ false =
          elim (Bool-cases (str_eq s.session_id session_id)) [
            | inr f ↦ f
            | inl f ↦
                let there : s.session_id ≡ session_id = (eq_iff s.session_id session_id).0 f in
                let again : str_eq t.session_id s.session_id ≡ true =
                  (eq_iff t.session_id s.session_id).1 (same ∙ sym there) in
                absurd (cc (again, e))
          ] in
        rw (e, g, apart) refl
  ]
]

-- After an update of a registry with a session, a lookup of any id finds a session just where one was
-- found before: the new session under its own id, and the old one under any other.
pub get_session-update_session :
    (registry : SessionRegistry) (s : AgentSession) (session_id : String)
    → get_session (update_session registry s) session_id
      ≡ replaced s session_id (get_session registry session_id)
unfolding get_session update_session
get_session-update_session registry s session_id = find-replaced s session_id registry.sessions
