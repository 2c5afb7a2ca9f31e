-- ===== src/Session.antt =====
-- The lifecycle of agent sessions: agent_runtime.py, workspace_binder.py and session_registry.py of
-- rationalevault/runtime. `reference_time` is the time's text, and the ids that are digests are
-- arguments, as is the id of the context that a package is streamed with. Of what an operation
-- returns, the session and the binding are kept; the payloads of events copy their fields.
pub mod Lifecycle
pub mod Registry
mod Tests
use rationale_vault.Prelude.{
  ℕ, String, Bool, true, false, not, ◌&&◌, Option, none, some, List, [], ◌∷◌, ◌++◌, map, keep,
  some_of, str_eq, length, if◌then◌else◌,
}

pub data SessionStatus : Type 0 where
  created attached streaming paused resumed detached closed : SessionStatus

pub record AgentSession : Type 0 where
  pub session_id : String
  pub profile_id : String
  pub workspace_id : String
  pub status : SessionStatus
  pub binding_id : String
  pub context_id : Option String
  pub snapshot_id : Option String
  pub protocol_version : String
  pub started_at : String
  pub last_active_at : String
  pub ended_at : Option String

pub record WorkspaceBinding : Type 0 where
  pub binding_id : String
  pub session_id : String
  pub workspace_id : String
  pub role : String
  pub attached_at : String
  pub detached_at : Option String

-- What an operation returns: its value, or an `Error`.
pub data Outcome (Value : Type 0) : Type 0 where
  refused : Outcome Value
  done : Value → Outcome Value

-- The session in another status, active now.
abbrev pub moved : SessionStatus → String → AgentSession → AgentSession
moved status now s = record s { status = status; last_active_at = now }

-- `WorkspaceBinder.create_session`
unfoldable pub create_session :
    String → String → String → WorkspaceBinding → String → String → AgentSession
create_session session_id profile_id workspace_id binding protocol_version now = record {
  session_id = session_id;
  profile_id = profile_id;
  workspace_id = workspace_id;
  status = created;
  binding_id = binding.binding_id;
  context_id = none;
  snapshot_id = none;
  protocol_version = protocol_version;
  started_at = now;
  last_active_at = now;
  ended_at = none;
}

-- `WorkspaceBinder.attach`, for the id of the new binding
unfoldable pub bind_session :
    String → AgentSession → String → String → String → AgentSession × WorkspaceBinding
bind_session binding_id s workspace_id role now = (
  record s {
    workspace_id = workspace_id;
    status = attached;
    binding_id = binding_id;
    last_active_at = now;
  },
  record {
    binding_id = binding_id;
    session_id = s.session_id;
    workspace_id = workspace_id;
    role = role;
    attached_at = now;
    detached_at = none;
  },
)

-- `WorkspaceBinder.detach`
unfoldable pub unbind_session :
    AgentSession → WorkspaceBinding → String → AgentSession × WorkspaceBinding
unbind_session s binding now = (moved detached now s, record binding { detached_at = some now })

-- `WorkspaceBinder.close_session`
unfoldable pub close_session : AgentSession → String → AgentSession
close_session s now = record s { status = closed; last_active_at = now; ended_at = some now }

-- `session.status in (ATTACHED, STREAMING, RESUMED)`
unfoldable pub is_running : SessionStatus → Bool
is_running attached = true
is_running streaming = true
is_running resumed = true
is_running _ = false

-- `AgentRuntime.attach`
unfoldable pub attach :
    String → AgentSession → String → String → Outcome (AgentSession × WorkspaceBinding)
attach binding_id s workspace_id now = elim s.status [
  | created ↦ done (bind_session binding_id s workspace_id "PRIMARY" now)
  | _ ↦ refused
]

-- `AgentRuntime.pause`
unfoldable pub pause : AgentSession → String → Outcome AgentSession
pause s now = if is_running s.status then done (moved paused now s) else refused

-- `AgentRuntime.resume`
unfoldable pub resume : AgentSession → String → Outcome AgentSession
resume s now = elim s.status [ paused ↦ done (moved resumed now s) | _ ↦ refused ]

-- `AgentRuntime.detach`
unfoldable pub detach :
    AgentSession → WorkspaceBinding → String → Outcome (AgentSession × WorkspaceBinding)
detach s binding now = elim s.status [
  | closed ↦ refused
  | detached ↦ refused
  | _ ↦ done (unbind_session s binding now)
]

-- `AgentRuntime.close`
unfoldable pub close : AgentSession → String → Outcome AgentSession
close s now = elim s.status [ closed ↦ refused | _ ↦ done (close_session s now) ]

-- `AgentRuntime.stream_package`
unfoldable pub stream_package : String → AgentSession → String → Outcome AgentSession
stream_package context_id s now =
    if is_running s.status
    then done (record s { status = streaming; context_id = some context_id; last_active_at = now })
    else refused

pub record SessionRegistry : Type 0 where
  pub sessions : List AgentSession
  pub compiled_at : String

unfoldable pub is_closed : SessionStatus → Bool
is_closed closed = true
is_closed _ = false

unfoldable pub active_sessions : SessionRegistry → List AgentSession
active_sessions registry = keep (λ s. not (is_closed s.status)) registry.sessions

unfoldable pub find_session : String → List AgentSession → Option AgentSession
find_session session_id [] = none
find_session session_id (s ∷ sessions) =
    if str_eq s.session_id session_id then some s else find_session session_id sessions

unfoldable pub get_session : SessionRegistry → String → Option AgentSession
get_session registry session_id = find_session session_id registry.sessions

unfoldable pub get_agent_sessions : SessionRegistry → String → Option String → List AgentSession
get_agent_sessions registry agent_id workspace_id =
    keep
      (λ s.
        str_eq s.profile_id agent_id
        && elim workspace_id [ none ↦ true | some w ↦ str_eq s.workspace_id w ])
      registry.sessions

-- `s.status in (CREATED, ATTACHED, STREAMING, RESUMED)`
unfoldable pub is_open : SessionStatus → Bool
is_open created = true
is_open status = is_running status

unfoldable pub has_open_session : SessionRegistry → String → String → Bool
has_open_session registry agent_id workspace_id =
    some_of
      (λ s. str_eq s.profile_id agent_id && str_eq s.workspace_id workspace_id && is_open s.status)
      registry.sessions

unfoldable pub get_workspace_sessions : SessionRegistry → String → List AgentSession
get_workspace_sessions registry workspace_id =
    keep (λ s. str_eq s.workspace_id workspace_id) registry.sessions

unfoldable pub add_session : SessionRegistry → AgentSession → SessionRegistry
add_session registry s = record registry { sessions = registry.sessions ++ s ∷ [] }

unfoldable pub update_session : SessionRegistry → AgentSession → SessionRegistry
update_session registry s = record registry {
  sessions = map (λ t. if str_eq t.session_id s.session_id then s else t) registry.sessions;
}
