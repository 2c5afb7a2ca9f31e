-- ===== src/Session/Tests.antt =====
-- A session that is created, attached and closed, and its registry.
use rationale_vault.Prelude.{true, none, [], ◌∷◌, ◌≡◌, refl}
use rationale_vault.Session.{
  AgentSession, WorkspaceBinding, SessionRegistry, create_session, bind_session, close_session,
  is_closed, attach, close, get_session, update_session,
}
use rationale_vault.Session.Lifecycle.{
  Step, attaches, closes, Leads, stays, goes_on, IsEnded, IsSame, create_session-IsEnded,
}
use rationale_vault.Session.Registry.{replaced, get_session-update_session}

abbrev binding : WorkspaceBinding
binding = record {
  binding_id = "WSB-0";
  session_id = "pending";
  workspace_id = "WS-1";
  role = "PRIMARY";
  attached_at = "t0";
  detached_at = none;
}

start : AgentSession
unfolding create_session
start = create_session "AGS-1" "AGNT-1" "WS-1" binding "1.0.0" "t0"

middle : AgentSession
unfolding start bind_session
middle = (bind_session "WSB-1" start "WS-1" "PRIMARY" "t1").0

over : AgentSession
unfolding middle close_session
over = close_session middle "t2"

led : Leads (create_session "AGS-1" "AGNT-1" "WS-1" binding "1.0.0" "t0") over
unfolding start middle over create_session bind_session close_session attach close
led =
    goes_on start middle over
      (goes_on start start middle (stays start) (
        attaches "WSB-1" "WS-1" "t1" start middle
          (bind_session "WSB-1" start "WS-1" "PRIMARY" "t1").1 refl))
      (closes "t2" middle over refl)

create_session-IsEnded_example :
    IsEnded over
    × IsSame (create_session "AGS-1" "AGNT-1" "WS-1" binding "1.0.0" "t0") over
    × ((s' : AgentSession) → is_closed over.status ≡ true → ¬ (Step over s'))
create_session-IsEnded_example =
    create_session-IsEnded "AGS-1" "AGNT-1" "WS-1" binding "1.0.0" "t0" over led

abbrev registry : SessionRegistry
registry = record { sessions = start ∷ []; compiled_at = "t0" }

get_session-update_session_example :
    get_session (update_session registry over) "AGS-1"
    ≡ replaced over "AGS-1" (get_session registry "AGS-1")
get_session-update_session_example = get_session-update_session registry over "AGS-1"
