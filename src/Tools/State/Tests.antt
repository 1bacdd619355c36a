-- ===== src/Tools/State/Tests.antt =====
-- The MCP state on concrete bytes, over base-128 varints.
use cursor_cli_byok.Base.{◌≡◌, refl, none, some, [], ◌∷◌, ok, false}
use cursor_cli_byok.Go.Strings.{same, text, trim_space, has_control}
use cursor_cli_byok.Provider.{contains}
use cursor_cli_byok.Wire.Fields.{
  consume_value, next_field, decode_loop, decode_wire_fields, last_field, last_bytes_field,
  last_varint_field, last_fixed64_field, repeated_bytes_field,
}
use cursor_cli_byok.Wire.Sample.{base128, get_varint, get_tag, get_bytes, bound}
use cursor_cli_byok.Protocol.Text.{valid_identifier, valid_utf8}
use cursor_cli_byok.Protocol.Schema.{
  decode_proto_value, decode_kinds, struct_kind, list_kind, decode_proto_struct, decode_proto_list,
  decode_entries, decode_items, decode_mcp_input_schema,
}
use cursor_cli_byok.Protocol.Client.{
  ClientMessage, exec, exec_client_payload, decode_exec_result_identity,
}
use cursor_cli_byok.Tools.Bridge.{is_exec_message}
use cursor_cli_byok.Tools.State.{
  McpStateResult, append_state_tool, decode_mcp_state_tool_definition, decode_state_tools,
  decode_state_servers, decode_mcp_state_success, decode_state_outcome, decode_mcp_state_result,
}
use cursor_cli_byok.Tools.State.Tools.{IsState, decode_mcp_state_result-IsState}

-- Under the ID 7 and the exec ID `e`, the server `s` with the tool `t`, which has no name.
abbrev discovered : ClientMessage
discovered = record {
  kind = exec;
  run_request = none;
  raw =
      18 ∷ 24 ∷ 8 ∷ 7 ∷ 122 ∷ 1 ∷ 101 ∷ 162 ∷ 2 ∷ 16 ∷ 10 ∷ 14 ∷ 10 ∷ 12 ∷ 18 ∷ 1 ∷ 115 ∷ 42 ∷ 7
      ∷ 26 ∷ 2 ∷ 42 ∷ 0 ∷ 42 ∷ 1 ∷ 116 ∷ [];
}

abbrev discovered_state : McpStateResult
discovered_state = record {
  message_id = 7;
  exec_id = 101 ∷ [];
  tools =
      record {
        name = 115 ∷ 45 ∷ 116 ∷ [];
        description = [];
        provider_identifier = 115 ∷ [];
        tool_name = 116 ∷ [];
        input_schema = 123 ∷ 125 ∷ [];
      }
      ∷ [];
  is_error = false;
  error = [];
}

decodes_state :
    decode_mcp_state_result (λ v. some (123 ∷ 125 ∷ [])) discovered 7 (101 ∷ [])
    ≡ ok discovered_state
unfolding decode_mcp_state_result decode_state_outcome decode_mcp_state_success decode_state_servers
    decode_state_tools decode_mcp_state_tool_definition append_state_tool is_exec_message
    decode_exec_result_identity exec_client_payload decode_mcp_input_schema decode_proto_value
    decode_kinds struct_kind list_kind decode_proto_struct decode_proto_list decode_entries
    decode_items valid_identifier valid_utf8 text contains same trim_space has_control last_field
    last_bytes_field last_varint_field last_fixed64_field repeated_bytes_field decode_wire_fields
    decode_loop next_field consume_value get_tag get_varint get_bytes bound
decodes_state = refl

decode_mcp_state_result-IsState_example : IsState 7 (101 ∷ []) discovered_state
decode_mcp_state_result-IsState_example =
    decode_mcp_state_result-IsState (λ v. some (123 ∷ 125 ∷ [])) discovered 7 (101 ∷ [])
      decodes_state
