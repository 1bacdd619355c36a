-- ===== src/Tools/State/Tools.antt =====
-- The tools of an MCP state that internal/protocol/mcp.go decodes.
use cursor_cli_byok.Base.{
  ℕ, ◌≡◌, refl, subst, false, true, not, ◌&&◌, ◌||◌, Option, Option-cases, inl, inr, List, [], ◌∷◌,
  map, Bytes, ok, bind-eq-ok, ok_eq, map_err, leb, ◌==◌, length, arith,
}
use cursor_cli_byok.Go.Strings.{is_empty, same, trim_space}
use cursor_cli_byok.Provider.{contains}
use cursor_cli_byok.Runner.Events.{McpToolDefinition}
use cursor_cli_byok.Wire.Protowire.{Protowire}
use cursor_cli_byok.Wire.Fields.{
  WireField, decode_wire_fields, last_bytes_field, repeated_bytes_field, or_empty,
}
use cursor_cli_byok.Protocol.Text.{valid_identifier}
use cursor_cli_byok.Protocol.Schema.{JsonValue}
use cursor_cli_byok.Protocol.Schema.Counted.{past, passed}
use cursor_cli_byok.Protocol.Mcp.{max_mcp_tools, definition_name}
use cursor_cli_byok.Protocol.Mcp.Names.{IsToolList, IsToolList-snoc}
use cursor_cli_byok.Protocol.Client.{
  ClientMessage, required, exec_client_payload, decode_exec_result_identity,
}
use cursor_cli_byok.Tools.Requests.{first_failure}
use cursor_cli_byok.Tools.Bridge.{is_exec_message}
use cursor_cli_byok.Tools.State.{
  McpStateResult, append_state_tool, decode_mcp_state_tool_definition, decode_state_tools,
  decode_state_servers, decode_mcp_state_success, decode_state_outcome, decode_mcp_state_result,
}

append_state_tool-IsToolList :
    (d : McpToolDefinition) (tools : List McpToolDefinition) {out : List McpToolDefinition}
    → IsToolList tools
    → append_state_tool d tools ≡ ok out
    → IsToolList out
unfolding append_state_tool
append_state_tool-IsToolList d tools h e =
    let full = leb max_mcp_tools (length tools) in
    let twice = contains d.name (map definition_name tools) in
    let e1 = past full _ e in
    subst IsToolList (ok_eq (past twice _ e1))
      (IsToolList-snoc d tools h (passed full _ _ e) (passed twice _ _ e1))

-- A state for a request: under its IDs, with tools of different names, or an error without tools.
pub record IsState (message_id : ℕ) (exec_id : Bytes) (r : McpStateResult) : Type 0 where
  pub same_message : r.message_id ≡ message_id
  pub same_exec : r.exec_id ≡ exec_id
  pub tools_fit : IsToolList r.tools
  pub no_tools_on_error : r.is_error ≡ true → r.tools ≡ []

module _ ⦃w : Protowire⦄ (marshal : JsonValue → Option Bytes) where
  decode_state_tools-IsToolList :
      (server : Bytes) (payloads : List Bytes) (tools : List McpToolDefinition)
      {out : List McpToolDefinition}
      → IsToolList tools
      → decode_state_tools marshal server payloads tools ≡ ok out
      → IsToolList out
  unfolding decode_state_tools
  decode_state_tools-IsToolList server [] tools h e = subst IsToolList (ok_eq e) h
  decode_state_tools-IsToolList server (payload ∷ payloads) tools h e =
      let (d, decoded, e1) =
        bind-eq-ok (decode_mcp_state_tool_definition marshal payload server) _ e in
      let (tools', appended, e2) = bind-eq-ok (append_state_tool d tools) _ e1 in
      decode_state_tools-IsToolList server payloads tools'
        (append_state_tool-IsToolList d tools h appended) e2

  decode_state_servers-IsToolList :
      (payloads : List Bytes) (tools : List McpToolDefinition) {out : List McpToolDefinition}
      → IsToolList tools
      → decode_state_servers marshal payloads tools ≡ ok out
      → IsToolList out
  unfolding decode_state_servers
  decode_state_servers-IsToolList [] tools h e = subst IsToolList (ok_eq e) h
  decode_state_servers-IsToolList (payload ∷ payloads) tools h e =
      let (fields, wire, e1) = bind-eq-ok (map_err _ (decode_wire_fields payload)) _ e in
      let server = trim_space (or_empty (last_bytes_field fields 2)) in
      let e2 = past (not (valid_identifier server)) _ e1 in
      let (tools', decoded, e3) =
        bind-eq-ok (decode_state_tools marshal server (repeated_bytes_field fields 5) tools) _ e2 in
      decode_state_servers-IsToolList payloads tools'
        (decode_state_tools-IsToolList server (repeated_bytes_field fields 5) tools h decoded) e3

  no_tools-IsToolList : IsToolList []
  no_tools-IsToolList = record { distinct = tt; length_le = omega arith }

  decode_state_outcome-IsState :
      (fields : List WireField) (message_id : ℕ) (exec_id : Bytes) {out : McpStateResult}
      → decode_state_outcome marshal fields (record {
        message_id = message_id;
        exec_id = exec_id;
        tools = [];
        is_error = false;
        error = [];
      })
        ≡ ok out
      → IsState message_id exec_id out
  unfolding decode_state_outcome decode_mcp_state_success
  decode_state_outcome-IsState fields message_id exec_id e =
      elim (Option-cases (last_bytes_field fields 1)) [
        | inr (success, q) ↦
            let (tools, decoded, e1) =
              bind-eq-ok (decode_mcp_state_success marshal success) _
                (rw (q, decode_state_outcome) at e) in
            let (inner, wire, e2) = bind-eq-ok (map_err _ (decode_wire_fields success)) _ decoded in
            subst (IsState message_id exec_id) (ok_eq e1) (record {
              same_message = refl;
              same_exec = refl;
              tools_fit =
                  decode_state_servers-IsToolList (repeated_bytes_field inner 1) []
                    no_tools-IsToolList e2;
              no_tools_on_error = λ h. absurd (cc h);
            })
        | inl q ↦
            let (found, first, e1) =
              bind-eq-ok (required _ (first_failure fields _)) _
                (rw (q, decode_state_outcome) at e) in
            let (inner, wire, e2) = bind-eq-ok (map_err _ (decode_wire_fields found.1)) _ e1 in
            subst (IsState message_id exec_id) (ok_eq e2) (record {
              same_message = refl;
              same_exec = refl;
              tools_fit = no_tools-IsToolList;
              no_tools_on_error = λ h. refl;
            })
      ]

  -- Whatever the message, an MCP state that is decoded for a request has the message ID and the exec
  -- ID of the request, and its tools are 256 at most and no two of them have one name; an error has
  -- no tools.
  pub decode_mcp_state_result-IsState :
      (message : ClientMessage) (message_id : ℕ) (exec_id : Bytes) {out : McpStateResult}
      → decode_mcp_state_result marshal message message_id exec_id ≡ ok out
      → IsState message_id exec_id out
  unfolding decode_mcp_state_result
  decode_mcp_state_result-IsState message message_id exec_id e =
      let e1 = past (not (is_exec_message message.kind)) _ e in
      let (identity, named, e2) = bind-eq-ok (decode_exec_result_identity message) _ e1 in
      let differs =
        (not (identity.message_id == 0) && not (identity.message_id == message_id))
        || (not (is_empty identity.exec_id) && not (same identity.exec_id exec_id)) in
      let e3 = past differs _ e2 in
      let (payload, opened, e4) = bind-eq-ok (exec_client_payload message.raw) _ e3 in
      let (fields, wire, e5) = bind-eq-ok (map_err _ (decode_wire_fields payload)) _ e4 in
      let (body, found, e6) = bind-eq-ok (required _ (last_bytes_field fields 36)) _ e5 in
      let (inner, wire', e7) = bind-eq-ok (map_err _ (decode_wire_fields body)) _ e6 in
      decode_state_outcome-IsState inner message_id exec_id e7
