-- ===== src/Tools/State.antt =====
-- The request for the MCP state and its result in internal/protocol/mcp.go. `marshal` is
-- `json.Marshal`.
pub mod Tests
pub mod Tools
use cursor_cli_byok.Base.{
  ℕ, Bool, true, false, not, ◌&&◌, ◌||◌, Option, none, some, List, [], ◌∷◌, ◌++◌, map, Bytes,
  Result, ok, err, new, ◌>>=◌, ◌>>◌, refuse_if, leb, ◌==◌, length, if◌then◌else◌,
}
use cursor_cli_byok.Go.Strings.{is_empty, same, text, trim_space}
use cursor_cli_byok.Provider.{contains}
use cursor_cli_byok.Runner.Events.{McpToolDefinition}
use cursor_cli_byok.Wire.Protowire.{Protowire}
use cursor_cli_byok.Wire.Encode.{append_string, append_message, append_varint}
use cursor_cli_byok.Wire.Fields.{
  WireField, decode_wire_fields, last_bytes_field, repeated_bytes_field, or_empty,
}
use cursor_cli_byok.Protocol.Text.{valid_identifier, valid_utf8, fallback_string}
use cursor_cli_byok.Protocol.Schema.{JsonValue, decode_mcp_input_schema, malformed, is_missing}
use cursor_cli_byok.Protocol.Mcp.{max_mcp_tools, definition_name}
use cursor_cli_byok.Protocol.Client.{
  ClientMessage, required, exec_client_payload, decode_exec_result_identity,
}
use cursor_cli_byok.Tools.Requests.{first_failure}
use cursor_cli_byok.Tools.Bridge.{is_exec_message}

pub record McpStateResult : Type 0 where
  pub message_id : ℕ
  pub exec_id : Bytes
  pub tools : List McpToolDefinition
  pub is_error : Bool
  pub error : Bytes

abbrev state_failures : List (ℕ × Bytes)
state_failures = (2, text "MCP state unavailable") ∷ (3, text "MCP state request rejected") ∷ []

-- A provider that is not named is the server.
abbrev or_provider : Bytes → Bytes → Bytes
or_provider provider fallback = if is_empty provider then fallback else provider

-- A name that is missing is that of the provider with the tool's.
abbrev or_joined : Bytes → Bytes → Bytes → Bytes
or_joined name provider tool_name =
    if is_empty name && (not (is_empty provider) && not (is_empty tool_name))
    then provider ++ text "-" ++ tool_name
    else name

-- The checks of `decodeMCPStateSuccess` on one more tool, `seen` being the names of the result.
unfoldable pub append_state_tool :
    McpToolDefinition → List McpToolDefinition → Result (List McpToolDefinition)
append_state_tool definition result = do
  refuse_if (leb max_mcp_tools (length result)) (new "decode MCP state result: too many tools")
  refuse_if (contains definition.name (map definition_name result))
      (new "decode MCP state result: duplicate tool names")
  ok (result ++ definition ∷ [])

module _ ⦃w : Protowire⦄ where
  -- `EncodeMCPStateRequest`
  unfoldable pub encode_mcp_state_request : ℕ → Bytes → Result Bytes
  encode_mcp_state_request message_id exec_id = do
    refuse_if ((message_id == 0) || not (valid_identifier (trim_space exec_id)))
        (new "encode MCP state request: message ID and exec ID are required")
    let exec = append_string (append_varint [] 1 message_id) 15 exec_id
    ok (append_message [] 2 (append_message exec 36 []))

  module _ (marshal : JsonValue → Option Bytes) where
    -- `decodeMCPStateToolDefinition`
    unfoldable pub decode_mcp_state_tool_definition : Bytes → Bytes → Result McpToolDefinition
    decode_mcp_state_tool_definition payload fallback_provider = do
      fields ←
          malformed (new "decode MCP state result: malformed tool") (decode_wire_fields payload)
      let description = or_empty (last_bytes_field fields 2)
      let schema_payload = last_bytes_field fields 3
      let provider =
          or_provider (trim_space (or_empty (last_bytes_field fields 4))) fallback_provider
      let tool_name = trim_space (or_empty (last_bytes_field fields 5))
      let name = or_joined (trim_space (or_empty (last_bytes_field fields 1))) provider tool_name
      refuse_if
          (not (valid_identifier name)
            || (not (valid_identifier provider)
                || (not (valid_identifier tool_name)
                    || (not (valid_utf8 description) || is_missing schema_payload))))
          (new "decode MCP state result: tool metadata is invalid")
      input_schema ← decode_mcp_input_schema marshal (or_empty schema_payload)
      ok (record {
        name = name;
        description = description;
        provider_identifier = provider;
        tool_name = tool_name;
        input_schema = input_schema;
      })

    -- The loop over the tools of a server.
    unfoldable pub decode_state_tools :
        Bytes → List Bytes → List McpToolDefinition → Result (List McpToolDefinition)
    decode_state_tools server [] result = ok result
    decode_state_tools server (payload ∷ payloads) result =
        decode_mcp_state_tool_definition payload server >>= λ definition.
        append_state_tool definition result >>= λ result'.
        decode_state_tools server payloads result'

    -- The loop over the servers.
    unfoldable pub decode_state_servers :
        List Bytes → List McpToolDefinition → Result (List McpToolDefinition)
    decode_state_servers [] result = ok result
    decode_state_servers (payload ∷ payloads) result =
        malformed (new "decode MCP state result: malformed server") (decode_wire_fields payload)
        >>= λ fields.
            let server = trim_space (or_empty (last_bytes_field fields 2)) in
            refuse_if (not (valid_identifier server))
              (new "decode MCP state result: server identifier is invalid")
            >> (decode_state_tools server (repeated_bytes_field fields 5) result >>= λ result'.
                decode_state_servers payloads result')

    -- `decodeMCPStateSuccess`
    unfoldable pub decode_mcp_state_success : Bytes → Result (List McpToolDefinition)
    decode_mcp_state_success payload = do
      fields ←
          malformed (new "decode MCP state result: malformed success") (decode_wire_fields payload)
      decode_state_servers (repeated_bytes_field fields 1) []

    -- The success and the failures of `DecodeMCPStateResult`.
    unfoldable pub decode_state_outcome : List WireField → McpStateResult → Result McpStateResult
    decode_state_outcome fields result = elim (last_bytes_field fields 1) [
      | some success ↦
          decode_mcp_state_success success >>= λ tools. ok (record result { tools = tools })
      | none ↦
          required (new "decode MCP state result: variant is unsupported")
            (first_failure fields state_failures)
          >>= λ found.
              malformed (new "decode MCP state result: malformed failure")
                (decode_wire_fields found.1)
              >>= λ failure_fields. ok (record result {
                is_error = true;
                error = fallback_string (or_empty (last_bytes_field failure_fields 1)) found.0;
              })
    ]

    -- `DecodeMCPStateResult`
    unfoldable pub decode_mcp_state_result : ClientMessage → ℕ → Bytes → Result McpStateResult
    decode_mcp_state_result message expected_message_id expected_exec_id = do
      refuse_if (not (is_exec_message message.kind))
          (new "decode MCP state result: client message is not an exec result")
      identity ← decode_exec_result_identity message
      refuse_if
          ((not (identity.message_id == 0) && not (identity.message_id == expected_message_id))
            || (not (is_empty identity.exec_id) && not (same identity.exec_id expected_exec_id)))
          (new "decode MCP state result: identity does not match request")
      exec_payload ← exec_client_payload message.raw
      exec_fields ←
          malformed (new "decode MCP state result: malformed exec message")
            (decode_wire_fields exec_payload)
      payload ←
          required (new "decode MCP state result: result is required")
            (last_bytes_field exec_fields 36)
      fields ←
          malformed (new "decode MCP state result: malformed result") (decode_wire_fields payload)
      decode_state_outcome fields (record {
        message_id = expected_message_id;
        exec_id = expected_exec_id;
        tools = [];
        is_error = false;
        error = [];
      })
