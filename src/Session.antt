-- ===== src/Session.antt =====
-- The `agentSession` of internal/server/agent.go: one run, the events queued for its subscribers,
-- and its end. Each function between `Lock` and `Unlock` is one step. The cancel function is set
-- where the run is started, so `started` says whether there is one; `terminal_at` is `none` where
-- the time is zero, and times are nanoseconds.
pub mod Retained
pub mod Scan
pub mod Kept
pub mod Stream
pub mod Changed
pub mod Delivery
pub mod Tests
use cursor_cli_byok.Base.{
  ℕ, ◌+◌, ◌-◌, ◌%◌, ◌^◌, Bool, true, false, not, ◌&&◌, ◌||◌, Option, none, some, List, [], ◌∷◌,
  ◌++◌, Bytes, Result, Outcome, ok, err, Error, new, canceled, if◌then◌else◌, ◌==◌, ltb, leb,
  length, drop,
}
use cursor_cli_byok.Go.Strings.{same, is_empty}
use cursor_cli_byok.Go.Table.{Table, lookup}
use cursor_cli_byok.Provider.{any}
use cursor_cli_byok.Runner.Events.{RunRequest, McpToolDefinition}

-- `ExecResultIdentity`
pub record ExecResultIdentity : Type 0 where
  pub message_id : ℕ
  pub exec_id : Bytes

-- `identityMatches`
unfoldable pub identity_matches : ExecResultIdentity → ℕ → Bytes → Bool
identity_matches identity message_id exec_id =
    if not (is_empty identity.exec_id)
    then same identity.exec_id exec_id
      && (identity.message_id == 0 || identity.message_id == message_id)
    else not (identity.message_id == 0) && identity.message_id == message_id

-- Of a `pendingTool`, the IDs of its transport, by which a result is matched. Its request, the channel
-- of its result, the output of its shell and the phase of its edit are left out.
pub record PendingTool : Type 0 where
  pub transport : ExecResultIdentity

pub record Session : Type 0 where
  pub run : RunRequest
  pub started : Bool
  pub done : Bool
  pub events : List Bytes
  pub error_code : Bytes
  pub error_message : Bytes
  pub terminal_at : Option ℕ
  -- a value waits in the channel `notify`, which holds one
  pub notified : Bool
  -- `session.cancel` was called
  pub cancelled : Bool
  pub subscribers : ℕ
  pub pending_by_message : List (ℕ × PendingTool)
  pub pending_by_exec : Table PendingTool
  pub mcp_discovery : Option ExecResultIdentity
  pub discovered_mcp_tools : List McpToolDefinition

abbrev pub no_run : RunRequest
no_run = record {
  conversation_id = [];
  model_id = [];
  user_text = [];
  user_message_id = [];
  metadata_only = false;
  mcp_tools_present = false;
  mcp_tools = [];
}

-- The session that `agentHandler.session` makes.
abbrev pub new_session : Session
new_session = record {
  run = no_run;
  started = false;
  done = false;
  events = [];
  error_code = [];
  error_message = [];
  terminal_at = none;
  notified = false;
  cancelled = false;
  subscribers = 0;
  pending_by_message = [];
  pending_by_exec = [];
  mcp_discovery = none;
  discovered_mcp_tools = [];
}

-- The loop of `RunRequest.Equal`, and its test of the lengths.
unfoldable pub same_tools : List McpToolDefinition → List McpToolDefinition → Bool
same_tools [] [] = true
same_tools [] (_ ∷ _) = false
same_tools (_ ∷ _) [] = false
same_tools (t ∷ tools) (c ∷ candidates) =
    same t.name c.name
    && (same t.description c.description
        && (same t.provider_identifier c.provider_identifier
            && (same t.tool_name c.tool_name
                && (same t.input_schema c.input_schema && same_tools tools candidates))))

abbrev same_bool : Bool → Bool → Bool
same_bool true b = b
same_bool false b = not b

-- `RunRequest.Equal`
unfoldable pub same_run : RunRequest → RunRequest → Bool
same_run request other =
    same request.conversation_id other.conversation_id
    && (same request.model_id other.model_id
        && (same request.user_text other.user_text
            && (same request.user_message_id other.user_message_id
                && (same_bool request.metadata_only other.metadata_only
                    && (same_bool request.mcp_tools_present other.mcp_tools_present
                        && same_tools request.mcp_tools other.mcp_tools)))))

-- `start`: whether the run is to be executed now.
unfoldable pub start : RunRequest → Session → Result Bool × Session
start request session =
    if session.started
    then if not (same_run session.run request)
      then (err (new "request ID already started with a different run"), session)
      else (ok false, session)
    else if session.done
    then (err (new "request ID is already terminal"), session)
    else (ok true, record session { started = true; run = request; notified = true })

-- `session.ctx.Err()` of a session that was started; the argument is that of its parent.
abbrev pub context_err : Option Error → Session → Option Error
context_err parent session = if session.cancelled then some canceled else parent

-- The events that are queued, with the signal.
abbrev pub queue : List Bytes → Session → Session
queue payloads session = record session { events = session.events ++ payloads; notified = true }

-- `publish`
unfoldable pub publish : Option Error → Bytes → Session → Outcome × Session
publish parent payload session =
    if session.done
    then (err (new "agent session is already terminal"), session)
    else elim (if session.started then context_err parent session else none) [
      | some e ↦ (err e, session)
      | none ↦ (ok tt, queue (payload ∷ []) session)
    ]

-- `if len(payload) > 0 { ... }` of `finish`
abbrev pub payloads : Bytes → List Bytes
payloads [] = []
payloads (b ∷ payload) = (b ∷ payload) ∷ []

-- `finish`, at that time
unfoldable pub finish : ℕ → Bytes → Bytes → Bytes → Session → Session
finish now payload code message session = if session.done then session else record session {
  events = session.events ++ payloads payload;
  done = true;
  error_code = code;
  error_message = message;
  pending_by_message = [];
  pending_by_exec = [];
  mcp_discovery = none;
  terminal_at = some now;
  notified = true;
  cancelled = session.cancelled || session.started;
}

-- `snapshot` from a cursor that is not negative: the events behind it.
unfoldable pub snapshot_events : ℕ → Session → List Bytes
snapshot_events cursor session = drop cursor session.events

-- `subscribe`
unfoldable pub subscribe : Session → Session
subscribe session = record session { subscribers = session.subscribers + 1 }

-- `unsubscribe`: the last subscriber cancels a run that goes on.
unfoldable pub unsubscribe : Session → Session
unsubscribe session =
    let left = session.subscribers - 1 in
    record session {
      subscribers = left;
      cancelled = session.cancelled || (left == 0 && (session.started && not session.done));
    }

-- `pendingByMessage[id]`
unfoldable pub pending_message : ℕ → List (ℕ × PendingTool) → Option PendingTool
pending_message id [] = none
pending_message id ((i, p) ∷ rest) = if i == id then some p else pending_message id rest

-- `session.mcpDiscovery != nil && identityMatches(...)`
abbrev pub matches_discovery : ExecResultIdentity → Option ExecResultIdentity → Bool
matches_discovery identity none = false
matches_discovery identity (some d) = identity_matches identity d.message_id d.exec_id

abbrev is_some {ℓ} : {A : Type ℓ} → Option A → Bool
is_some none = false
is_some (some _) = true

-- The pending tool that `matchesToolResult` finds under an exec ID.
abbrev matches_pending : ℕ → Option PendingTool → Bool
matches_pending message_id none = false
matches_pending message_id (some p) = message_id == 0 || p.transport.message_id == message_id

-- `matchesToolResult`
unfoldable pub matches_tool_result : ExecResultIdentity → Session → Bool
matches_tool_result identity session =
    if session.done
    then false
    else if matches_discovery identity session.mcp_discovery
    then true
    else if not (is_empty identity.exec_id)
    then matches_pending identity.message_id (lookup identity.exec_id session.pending_by_exec)
    else not (identity.message_id == 0)
      && is_some (pending_message identity.message_id session.pending_by_message)

-- `effectiveMCPToolsLocked`
unfoldable pub effective_mcp_tools : Session → List McpToolDefinition
effective_mcp_tools session =
    if any session.discovered_mcp_tools
    then session.run.mcp_tools ++ session.discovered_mcp_tools
    else session.run.mcp_tools

-- `runMCPTool`
unfoldable pub run_mcp_tool : List McpToolDefinition → Bytes → Option McpToolDefinition
run_mcp_tool [] name = none
run_mcp_tool (d ∷ definitions) name =
    if same d.name name then some d else run_mcp_tool definitions name

-- `allocateMessageID`: the ID, and `nextMessageID` after it, a uint32.
unfoldable pub allocate_message_id : ℕ → ℕ × ℕ
allocate_message_id next =
    let value = (next + 1) % 2 ^ 32 in
    if value == 0 then ((value + 1) % 2 ^ 32, (value + 1) % 2 ^ 32) else (value, value)
