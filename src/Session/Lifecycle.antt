-- ===== src/Session/Lifecycle.antt =====
-- Which sessions the operations of the runtime lead to (runtime/agent_runtime.py).
use rationale_vault.Prelude.{
  String, true, false, Bool-cases, none, some, ◌≡◌, refl, ap, ◌∙◌, inl, inr, ◌⊎◌,
}
use mathlib.Core.Path.{subst}
use rationale_vault.Session.{
  SessionStatus, created, streaming, paused, resumed, detached, closed, AgentSession,
  WorkspaceBinding, refused, done, create_session, bind_session, unbind_session, close_session,
  is_running, is_closed, attach, pause, resume, detach, close, stream_package,
}

-- One operation that is not refused.
pub data Step : AgentSession → AgentSession → Type 0 where
  attaches :
      (id workspace_id now : String) (s s' : AgentSession) (binding : WorkspaceBinding)
      → attach id s workspace_id now ≡ done (s', binding)
      → Step s s'
  pauses : (now : String) (s s' : AgentSession) → pause s now ≡ done s' → Step s s'
  resumes : (now : String) (s s' : AgentSession) → resume s now ≡ done s' → Step s s'
  detaches :
      (now : String) (s s' : AgentSession) (binding binding' : WorkspaceBinding)
      → detach s binding now ≡ done (s', binding')
      → Step s s'
  closes : (now : String) (s s' : AgentSession) → close s now ≡ done s' → Step s s'
  streams :
      (context_id now : String) (s s' : AgentSession)
      → stream_package context_id s now ≡ done s'
      → Step s s'

-- Any number of operations.
pub data Leads : AgentSession → AgentSession → Type 0 where
  stays : (s : AgentSession) → Leads s s
  goes_on : (s t u : AgentSession) → Leads s t → Step t u → Leads s u

-- A session has an end just where it is closed.
abbrev pub IsEnded : AgentSession → Type 0
IsEnded s =
    ((is_closed s.status ≡ true) × ((t : String) × (s.ended_at ≡ some t)))
    ⊎ ((is_closed s.status ≡ false) × (s.ended_at ≡ none))

attach-inv :
    (st : SessionStatus) (id workspace_id now : String) (s s' : AgentSession)
    (binding : WorkspaceBinding)
    → s.status ≡ st
    → attach id s workspace_id now ≡ done (s', binding)
    → (st ≡ created) × ((bind_session id s workspace_id "PRIMARY" now).0 ≡ s')
unfolding attach bind_session
attach-inv created id workspace_id now s s' binding e h =
    let h' : done (bind_session id s workspace_id "PRIMARY" now) ≡ done (s', binding) = rw e at h in
    let h1 : bind_session id s workspace_id "PRIMARY" now ≡ (s', binding) = cc h' in
    (refl, ap (λ (x : AgentSession × WorkspaceBinding). x.0) h1)
attach-inv _ id workspace_id now s s' binding e h =
    let h' : refused ≡ done (s', binding) = rw e at h in absurd (cc h')

pause-inv :
    (now : String) (s s' : AgentSession)
    → pause s now ≡ done s'
    → (is_running s.status ≡ true) × (record s { status = paused; last_active_at = now } ≡ s')
unfolding pause
pause-inv now s s' h = elim (Bool-cases (is_running s.status)) [
  | inl b ↦
      let h' : done (record s { status = paused; last_active_at = now }) ≡ done s' = rw b at h in
      (b, cc h')
  | inr b ↦ let h' : refused ≡ done s' = rw b at h in absurd (cc h')
]

stream-inv :
    (context_id now : String) (s s' : AgentSession)
    → stream_package context_id s now ≡ done s'
    → (is_running s.status ≡ true)
      × (record s { status = streaming; context_id = some context_id; last_active_at = now } ≡ s')
unfolding stream_package
stream-inv context_id now s s' h = elim (Bool-cases (is_running s.status)) [
  | inl b ↦
      let h' : done
            (record s { status = streaming; context_id = some context_id; last_active_at = now })
          ≡ done s' =
        rw b at h in
      (b, cc h')
  | inr b ↦ let h' : refused ≡ done s' = rw b at h in absurd (cc h')
]

resume-inv :
    (st : SessionStatus) (now : String) (s s' : AgentSession)
    → s.status ≡ st
    → resume s now ≡ done s'
    → (st ≡ paused) × (record s { status = resumed; last_active_at = now } ≡ s')
unfolding resume
resume-inv paused now s s' e h =
    let h' : done (record s { status = resumed; last_active_at = now }) ≡ done s' = rw e at h in
    (refl, cc h')
resume-inv _ now s s' e h = let h' : refused ≡ done s' = rw e at h in absurd (cc h')

detach-inv :
    (st : SessionStatus) (now : String) (s s' : AgentSession) (binding binding' : WorkspaceBinding)
    → s.status ≡ st
    → detach s binding now ≡ done (s', binding')
    → (is_closed st ≡ false) × (record s { status = detached; last_active_at = now } ≡ s')
unfolding detach unbind_session is_closed
detach-inv closed now s s' binding binding' e h =
    let h' : refused ≡ done (s', binding') = rw e at h in absurd (cc h')
detach-inv detached now s s' binding binding' e h =
    let h' : refused ≡ done (s', binding') = rw e at h in absurd (cc h')
detach-inv _ now s s' binding binding' e h =
    let h' : done (unbind_session s binding now) ≡ done (s', binding') = rw e at h in
    let h1 : unbind_session s binding now ≡ (s', binding') = cc h' in
    (refl, ap (λ (x : AgentSession × WorkspaceBinding). x.0) h1)

close-inv :
    (st : SessionStatus) (now : String) (s s' : AgentSession)
    → s.status ≡ st
    → close s now ≡ done s'
    → (is_closed st ≡ false) × (close_session s now ≡ s')
unfolding close is_closed close_session
close-inv closed now s s' e h = let h' : refused ≡ done s' = rw e at h in absurd (cc h')
close-inv _ now s s' e h =
    let h' : done (close_session s now) ≡ done s' = rw e at h in (refl, cc h')

running-open : (st : SessionStatus) → is_running st ≡ true → is_closed st ≡ false
unfolding is_running is_closed
running-open closed h = absurd (cc h)
running-open _ h = refl

-- The session is the other one but for its workspace, status, binding, context and times.
abbrev pub IsSame : AgentSession → AgentSession → Type 0
IsSame s s' =
    (s'.session_id ≡ s.session_id)
    × (s'.profile_id ≡ s.profile_id)
    × (s'.protocol_version ≡ s.protocol_version)
    × (s'.started_at ≡ s.started_at)

-- What an operation keeps.
abbrev Kept : AgentSession → AgentSession → Type 0
Kept s s' = (is_closed s.status ≡ false) × (IsEnded s → IsEnded s') × IsSame s s'

still_none : (s : AgentSession) → is_closed s.status ≡ false → IsEnded s → s.ended_at ≡ none
still_none s shut (inl (over, _)) = absurd (cc (shut, over))
still_none s shut (inr (_, none_yet)) = none_yet

Step-Kept : (s s' : AgentSession) → Step s s' → Kept s s'
unfolding bind_session close_session is_closed
Step-Kept _ _ (attaches id workspace_id now s s' binding h) =
    let (e, same) = attach-inv s.status id workspace_id now s s' binding refl h in
    let shut : is_closed s.status ≡ false = ap is_closed e in
    subst (Kept s) same
      (shut, (λ ended. inr (refl, still_none s shut ended)), (refl, refl, refl, refl))
Step-Kept _ _ (pauses now s s' h) =
    let (running, same) = pause-inv now s s' h in
    let shut = running-open s.status running in
    subst (Kept s) same
      (shut, (λ ended. inr (refl, still_none s shut ended)), (refl, refl, refl, refl))
Step-Kept _ _ (resumes now s s' h) =
    let (e, same) = resume-inv s.status now s s' refl h in
    let shut : is_closed s.status ≡ false = ap is_closed e in
    subst (Kept s) same
      (shut, (λ ended. inr (refl, still_none s shut ended)), (refl, refl, refl, refl))
Step-Kept _ _ (detaches now s s' binding binding' h) =
    let (shut, same) = detach-inv s.status now s s' binding binding' refl h in
    subst (Kept s) same
      (shut, (λ ended. inr (refl, still_none s shut ended)), (refl, refl, refl, refl))
Step-Kept _ _ (closes now s s' h) =
    let (shut, same) = close-inv s.status now s s' refl h in
    subst (Kept s) same (shut, (λ _. inl (refl, (now, refl))), (refl, refl, refl, refl))
Step-Kept _ _ (streams context_id now s s' h) =
    let (running, same) = stream-inv context_id now s s' h in
    let shut = running-open s.status running in
    subst (Kept s) same
      (shut, (λ ended. inr (refl, still_none s shut ended)), (refl, refl, refl, refl))

Leads-IsEnded : (s u : AgentSession) → Leads s u → IsEnded s → IsEnded u × IsSame s u
Leads-IsEnded _ _ (stays s) ended = (ended, (refl, refl, refl, refl))
Leads-IsEnded _ _ (goes_on s t u led step) ended =
    let (ended', (a, b, c, d)) = Leads-IsEnded s t led ended in
    let (_, keeps, (a', b', c', d')) = Step-Kept t u step in
    (keeps ended', (a' ∙ a, b' ∙ b, c' ∙ c, d' ∙ d))

-- Whatever operations a new session goes through, it has an end time just where it is closed, no
-- operation leads on from a closed session, and its own id, its profile, its protocol version and its
-- start stay what they were.
pub create_session-IsEnded :
    (session_id profile_id workspace_id : String) (binding : WorkspaceBinding)
    (protocol_version now : String) (s : AgentSession)
    → Leads (create_session session_id profile_id workspace_id binding protocol_version now) s
    → IsEnded s
      × IsSame (create_session session_id profile_id workspace_id binding protocol_version now) s
      × ((s' : AgentSession) → is_closed s.status ≡ true → ¬ (Step s s'))
unfolding create_session is_closed
create_session-IsEnded session_id profile_id workspace_id binding protocol_version now s led =
    let (ended, same) =
      Leads-IsEnded (create_session session_id profile_id workspace_id binding protocol_version now)
        s led (inr (refl, refl)) in
    (ended, same, (λ s' over step. cc ((Step-Kept s s' step).0, over)))
