-- ===== src/Tools/Bridge.antt =====
-- `EncodeToolDispatch`, `DecodeToolResult` and `EncodeToolCompleted` of
-- internal/protocol/tool_bridge.go.
pub mod Alike
pub mod Identity
pub mod Others
use cursor_cli_byok.Base.{
  ℕ, ◌%◌, ◌^◌, Bool, true, false, not, ◌&&◌, ◌||◌, [], List, Bytes, Result, Outcome, ok, err, new,
  ◌>>=◌, ◌>>◌, refuse_if, ◌==◌,
}
use cursor_cli_byok.Go.Strings.{is_empty, same, trim_space}
use cursor_cli_byok.Wire.Protowire.{Protowire}
use cursor_cli_byok.Wire.Fields.{
  WireField, decode_wire_fields, last_bytes_field, last_varint_field, or_empty, or_zero,
}
use cursor_cli_byok.Protocol.Schema.{malformed}
use cursor_cli_byok.Protocol.Client.{ClientMessage, ClientMessageKind, exec, exec_client_payload}
use cursor_cli_byok.Tools.Types.{
  ToolRequest, ToolResult, ToolDispatch, fresh_result, ToolKind, tool_kind, write_tool, delete_tool,
  list_tool, grep_tool, glob_tool, shell_tool, mcp_tool, unsupported_tool,
}
use cursor_cli_byok.Tools.Json.{ToolJson}
use cursor_cli_byok.Tools.Requests.{validate_tool_request, completed_message}
use cursor_cli_byok.Tools.Write.{
  encode_write_tool_dispatch, decode_write_tool_result, encode_write_display_tool_call,
}
use cursor_cli_byok.Tools.Files.{
  encode_delete_tool_dispatch, decode_delete_tool_result, encode_delete_display_tool_call,
}
use cursor_cli_byok.Tools.Listing.{
  encode_list_tool_dispatch, decode_list_tool_result, encode_list_display_tool_call,
}
use cursor_cli_byok.Tools.Grep.{
  encode_grep_tool_dispatch, decode_grep_tool_result, encode_grep_display_tool_call,
  encode_glob_tool_dispatch, decode_glob_tool_result, encode_glob_display_tool_call,
}
use cursor_cli_byok.Tools.Shell.{encode_shell_tool_dispatch}
use cursor_cli_byok.Tools.Shell.Stream.{decode_shell_tool_result}
use cursor_cli_byok.Tools.Shell.Finish.{encode_shell_display_tool_call}
use cursor_cli_byok.Tools.Mcp.{
  encode_mcp_tool_dispatch, decode_mcp_tool_result, encode_mcp_display_tool_call,
}

unfoldable pub is_exec_message : ClientMessageKind → Bool
is_exec_message exec = true
is_exec_message _ = false

-- The test of `DecodeToolResult` on what the client says of the request's identity.
unfoldable pub identity_differs : ToolRequest → ℕ → Bytes → Bool
identity_differs request message_id exec_id =
    (not (message_id == 0) && not (message_id == request.message_id))
    || ((not (is_empty exec_id) && not (same exec_id request.exec_id))
        || ((message_id == 0) && is_empty exec_id))

module _ ⦃w : Protowire⦄ ⦃j : ToolJson⦄ where
  -- The `switch` of `EncodeToolDispatch`
  unfoldable pub encode_dispatch_of : ToolKind → ToolRequest → Result ToolDispatch
  encode_dispatch_of write_tool request = encode_write_tool_dispatch request
  encode_dispatch_of delete_tool request = encode_delete_tool_dispatch request
  encode_dispatch_of list_tool request = encode_list_tool_dispatch request
  encode_dispatch_of grep_tool request = encode_grep_tool_dispatch request
  encode_dispatch_of glob_tool request = encode_glob_tool_dispatch request
  encode_dispatch_of shell_tool request = encode_shell_tool_dispatch request
  encode_dispatch_of mcp_tool request = encode_mcp_tool_dispatch request
  encode_dispatch_of unsupported_tool request =
      err (new "encode tool dispatch: tool is unsupported")

  unfoldable pub encode_tool_dispatch : ToolRequest → Result ToolDispatch
  encode_tool_dispatch request = do
    validate_tool_request request
    encode_dispatch_of (tool_kind request.name) request

  -- The `switch` of `DecodeToolResult`
  unfoldable pub decode_result_of :
      ToolKind → List WireField → ToolRequest → ToolResult → Result ToolResult
  decode_result_of write_tool fields request result = decode_write_tool_result fields result
  decode_result_of delete_tool fields request result = decode_delete_tool_result fields result
  decode_result_of list_tool fields request result = decode_list_tool_result fields request result
  decode_result_of grep_tool fields request result = decode_grep_tool_result fields result
  decode_result_of glob_tool fields request result = decode_glob_tool_result fields request result
  decode_result_of shell_tool fields request result = decode_shell_tool_result fields result
  decode_result_of mcp_tool fields request result = decode_mcp_tool_result fields result
  decode_result_of unsupported_tool fields request result =
      err (new "decode tool result: tool is unsupported")

  unfoldable pub decode_tool_result : ClientMessage → ToolRequest → Result ToolResult
  decode_tool_result message request = do
    validate_tool_request request
    refuse_if (not (is_exec_message message.kind))
        (new "decode tool result: client message is not an exec result")
    payload ← exec_client_payload message.raw
    fields ←
        malformed (new "decode tool result: malformed exec message") (decode_wire_fields payload)
    let message_id = or_zero (last_varint_field fields 1) % 2 ^ 32
    let exec_id = trim_space (or_empty (last_bytes_field fields 15))
    refuse_if (identity_differs request message_id exec_id)
        (new "decode tool result: result identity does not match request")
    decode_result_of (tool_kind request.name) fields request (fresh_result request)

  -- The `switch` of `EncodeToolCompleted`
  unfoldable pub encode_display_of : ToolKind → ToolRequest → ToolResult → Result Bytes
  encode_display_of write_tool request result =
      encode_write_display_tool_call request result.result_payload
  encode_display_of delete_tool request result =
      encode_delete_display_tool_call request result.result_payload
  encode_display_of list_tool request result =
      encode_list_display_tool_call request result.result_payload
  encode_display_of grep_tool request result =
      encode_grep_display_tool_call request result.result_payload
  encode_display_of glob_tool request result =
      encode_glob_display_tool_call request result.result_payload
  encode_display_of shell_tool request result = encode_shell_display_tool_call request result
  encode_display_of mcp_tool request result =
      encode_mcp_display_tool_call request result.result_payload
  encode_display_of unsupported_tool request result =
      err (new "encode tool completed: tool is unsupported")

  unfoldable pub encode_tool_completed : ToolRequest → ToolResult → Result Bytes
  encode_tool_completed request result = do
    validate_tool_request request
    refuse_if
        (not (result.message_id == request.message_id)
          || (not (same result.exec_id request.exec_id)
              || (not (same result.name request.name) || not result.complete)))
        (new "encode tool completed: result does not match request")
    tool_call ← encode_display_of (tool_kind request.name) request result
    ok (completed_message request.call_id tool_call)
