-- ===== src/Tools/Mcp.antt =====
-- The CallMcpTool tool of internal/protocol/tool_mcp.go.
use cursor_cli_byok.Base.{◌+◌, true, [], ◌∷◌, List, Bytes, Result, ok, new, ◌>>=◌}
use cursor_cli_byok.Wire.Protowire.{Protowire}
use cursor_cli_byok.Wire.Encode.{append_string, append_message}
use cursor_cli_byok.Wire.Fields.{WireField, last_bytes_field}
use cursor_cli_byok.Protocol.Schema.{max_proto_json_depth}
use cursor_cli_byok.Protocol.Client.{required}
use cursor_cli_byok.Tools.Types.{ToolRequest, ToolResult, ToolDispatch}
use cursor_cli_byok.Tools.Json.{ToolJson, McpToolArguments}
use cursor_cli_byok.Tools.Requests.{execute_message, started_message}
use cursor_cli_byok.Tools.Arguments.{decode_mcp_tool_arguments, decode_mcp_argument_object}
use cursor_cli_byok.Tools.Values.{sort_entries, encode_entries, encode_proto_value}
use cursor_cli_byok.Tools.Summary.{summarize_mcp_result, convert_mcp_result_for_display}

module _ ⦃w : Protowire⦄ ⦃j : ToolJson⦄ where
  unfoldable pub encode_mcp_args : McpToolArguments → Bytes → Result Bytes
  encode_mcp_args arguments call_id = do
    values ← decode_mcp_argument_object arguments.arguments
    (payload, nodes) ←
        encode_entries (encode_proto_value (max_proto_json_depth + 1)) 2 (sort_entries values)
          (append_string [] 1 arguments.name) 0
    let payload = append_string (append_string payload 3 call_id) 4 arguments.server
    ok (append_string payload 5 arguments.tool_name)

  unfoldable pub encode_mcp_tool_dispatch : ToolRequest → Result ToolDispatch
  encode_mcp_tool_dispatch request = do
    arguments ← decode_mcp_tool_arguments request.arguments
    mcp_args ← encode_mcp_args arguments request.call_id
    ok (record {
      execute = execute_message request 11 mcp_args;
      started =
          started_message request.call_id (append_message [] 15 (append_message [] 1 mcp_args));
    })

  unfoldable pub decode_mcp_tool_result : List WireField → ToolResult → Result ToolResult
  decode_mcp_tool_result exec_fields result = do
    payload ←
        required (new "decode tool result: MCP result is required")
          (last_bytes_field exec_fields 11)
    (content, is_error) ← summarize_mcp_result payload
    ok (record result {
      complete = true;
      is_error = is_error;
      content = content;
      result_payload = payload;
    })

  -- `if result != nil`
  append_mcp_result : Bytes → Bytes → Result Bytes
  append_mcp_result mcp_tool_call [] = ok mcp_tool_call
  append_mcp_result mcp_tool_call (b ∷ result) = do
    tool_result ← convert_mcp_result_for_display (b ∷ result)
    ok (append_message mcp_tool_call 2 tool_result)

  unfoldable pub encode_mcp_display_tool_call : ToolRequest → Bytes → Result Bytes
  unfolding append_mcp_result
  encode_mcp_display_tool_call request result = do
    arguments ← decode_mcp_tool_arguments request.arguments
    mcp_args ← encode_mcp_args arguments request.call_id
    mcp_tool_call ← append_mcp_result (append_message [] 1 mcp_args) result
    ok (append_message [] 15 mcp_tool_call)
