-- ===== src/Protocol/Tests.antt =====
-- Messages of concrete bytes, over base-128 varints.
use cursor_cli_byok.Base.{false, ◌+◌, ◌≤◌, ◌≡◌, refl, Option, some, List, [], ◌∷◌, Bytes, ok}
use cursor_cli_byok.Go.Strings.{same, trim_space, has_control}
use cursor_cli_byok.Provider.{contains}
use cursor_cli_byok.Runner.Events.{McpToolDefinition, RunRequest}
use cursor_cli_byok.Wire.Protowire.{bytes_type}
use cursor_cli_byok.Wire.Fields.{
  WireField, empty_field, consume_value, next_field, decode_loop, decode_wire_fields, last_field,
  last_bytes_field, last_varint_field, last_fixed64_field, repeated_bytes_field,
}
use cursor_cli_byok.Wire.Sample.{base128, get_varint, get_tag, get_bytes, bound}
use cursor_cli_byok.Protocol.Text.{valid_identifier, valid_utf8}
use cursor_cli_byok.Protocol.Client.{
  decode_run_request, decode_run_names, decode_run_action, decode_user_message,
}
use cursor_cli_byok.Protocol.Client.Runs.{IsRun, decode_run_request-IsRun}
use cursor_cli_byok.Wire.Fields.{has_bytes_field}
use cursor_cli_byok.Protocol.Schema.Counted.{size, depth}
use cursor_cli_byok.Protocol.Schema.Bounds.{decode_proto_value_bounded}
use cursor_cli_byok.Protocol.Schema.{
  array, item, string, object, no_entries, no_items, max_proto_json_nodes, JsonValue,
  decode_entries, decode_items, decode_proto_struct, decode_proto_list, struct_kind, list_kind,
  decode_kinds, decode_proto_value, decode_mcp_input_schema,
}
use cursor_cli_byok.Protocol.Mcp.{
  append_definition, decode_mcp_tool_definition, decode_definitions, decode_tools_field,
  decode_options_field, decode_mcp_tools,
}
use cursor_cli_byok.Protocol.Mcp.Names.{IsToolList, decode_mcp_tools-IsToolList}

abbrev braces : JsonValue → Option Bytes
braces value = some (123 ∷ 125 ∷ [])

-- A message with one tool: the name `a`, the schema of an empty object, the server `p`, the tool `t`.
abbrev tool_fields : List WireField
tool_fields =
    record (empty_field 4 bytes_type) {
      bytes = 10 ∷ 13 ∷ 10 ∷ 1 ∷ 97 ∷ 34 ∷ 1 ∷ 112 ∷ 42 ∷ 1 ∷ 116 ∷ 26 ∷ 2 ∷ 42 ∷ 0 ∷ [];
    }
    ∷ []

abbrev one_tool : List McpToolDefinition
one_tool =
    record {
      name = 97 ∷ [];
      description = [];
      provider_identifier = 112 ∷ [];
      tool_name = 116 ∷ [];
      input_schema = 123 ∷ 125 ∷ [];
    }
    ∷ []

decodes_one : decode_mcp_tools braces tool_fields ≡ ok one_tool
unfolding decode_mcp_tools decode_tools_field decode_options_field decode_definitions
    append_definition decode_mcp_tool_definition decode_mcp_input_schema decode_proto_value
    decode_kinds struct_kind list_kind decode_proto_struct decode_proto_list decode_entries
    decode_items valid_identifier valid_utf8 last_field last_bytes_field last_varint_field
    last_fixed64_field repeated_bytes_field decode_wire_fields decode_loop next_field consume_value
    get_tag get_varint get_bytes bound contains same trim_space has_control
decodes_one = refl

decode_mcp_tools-IsToolList_example : IsToolList one_tool
decode_mcp_tools-IsToolList_example = decode_mcp_tools-IsToolList braces tool_fields decodes_one

-- A list of a string and of an empty object: three values, two levels.
abbrev nested_bytes : Bytes
nested_bytes = 50 ∷ 9 ∷ 10 ∷ 3 ∷ 26 ∷ 1 ∷ 97 ∷ 10 ∷ 2 ∷ 42 ∷ 0 ∷ []

abbrev nested : JsonValue
nested = array (item (string (97 ∷ [])) (item (object no_entries) no_items))

decodes_nested : decode_proto_value 65 nested_bytes 0 ≡ ok (nested, 3)
unfolding decode_proto_value decode_kinds struct_kind list_kind decode_proto_struct
    decode_proto_list decode_entries decode_items valid_utf8 last_field last_bytes_field
    last_varint_field last_fixed64_field repeated_bytes_field decode_wire_fields decode_loop
    next_field consume_value get_tag get_varint get_bytes bound contains same
decodes_nested = refl

decode_proto_value_bounded_example :
    (3 ≡ 0 + size nested) × (3 ≤ max_proto_json_nodes) × (depth nested ≤ 65)
decode_proto_value_bounded_example = decode_proto_value_bounded 65 nested_bytes 0 decodes_nested

-- A run of the conversation `k` with the model `m` and the text `hi`.
abbrev run_bytes : Bytes
run_bytes =
    42 ∷ 1 ∷ 107 ∷ 74 ∷ 3 ∷ 10 ∷ 1 ∷ 109 ∷ 18 ∷ 8 ∷ 10 ∷ 6 ∷ 10 ∷ 4 ∷ 10 ∷ 2 ∷ 104 ∷ 105 ∷ []

abbrev small_run : RunRequest
small_run = record {
  conversation_id = 107 ∷ [];
  model_id = 109 ∷ [];
  user_text = 104 ∷ 105 ∷ [];
  user_message_id = [];
  metadata_only = false;
  mcp_tools_present = false;
  mcp_tools = [];
}

decodes_run : decode_run_request braces run_bytes ≡ ok small_run
unfolding decode_run_request decode_run_names decode_run_action decode_user_message decode_mcp_tools
    decode_tools_field decode_options_field has_bytes_field valid_identifier last_field
    last_bytes_field last_varint_field decode_wire_fields decode_loop next_field consume_value
    get_tag get_varint get_bytes bound trim_space has_control
decodes_run = refl

decode_run_request-IsRun_example : IsRun small_run
decode_run_request-IsRun_example = decode_run_request-IsRun braces run_bytes decodes_run
