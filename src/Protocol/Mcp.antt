-- ===== src/Protocol/Mcp.antt =====
-- The MCP tools of a run request and of an MCP state in internal/protocol/mcp.go. `marshal` is
-- `json.Marshal`.
pub mod Names
use cursor_cli_byok.Base.{
  ℕ, zero, suc, ◌+◌, ◌%◌, ◌^◌, Bool, true, false, not, ◌&&◌, ◌||◌, Option, none, some, List, [],
  ◌∷◌, ◌++◌, Bytes, Result, Outcome, ok, err, Error, new, ◌>>=◌, ◌>>◌, refuse_if, map_err, leb,
  ◌==◌, if◌then◌else◌, length, map,
}
use cursor_cli_byok.Go.Strings.{is_empty, trim_space, text}
use cursor_cli_byok.Provider.{contains}
use cursor_cli_byok.Runner.Events.{McpToolDefinition}
use cursor_cli_byok.Wire.Protowire.{Protowire}
use cursor_cli_byok.Wire.Fields.{
  WireField, decode_wire_fields, last_bytes_field, last_varint_field, repeated_bytes_field,
  or_empty, or_zero,
}
use cursor_cli_byok.Protocol.Text.{valid_identifier, valid_utf8}
use cursor_cli_byok.Protocol.Schema.{JsonValue, decode_mcp_input_schema, malformed, is_missing}

abbrev pub max_mcp_tools : ℕ
max_mcp_tools = 256

abbrev pub definition_name : McpToolDefinition → Bytes
definition_name d = d.name

-- The closure `appendDefinition` of `decodeMCPTools`, `seen` being the names of the result.
unfoldable pub append_definition :
    McpToolDefinition → List McpToolDefinition → Result (List McpToolDefinition)
append_definition definition result = do
  refuse_if (leb max_mcp_tools (length result)) (new "run request has too many MCP tools")
  refuse_if (contains definition.name (map definition_name result))
      (new "run request has duplicate MCP tool names")
  ok (result ++ definition ∷ [])

-- `for _, definition := range definitions`
unfoldable pub append_definitions :
    List McpToolDefinition → List McpToolDefinition → Result (List McpToolDefinition)
append_definitions [] result = ok result
append_definitions (d ∷ definitions) result =
    append_definition d result >>= λ result'. append_definitions definitions result'

module _ ⦃w : Protowire⦄ (marshal : JsonValue → Option Bytes) where
  -- `decodeMCPToolDefinition`
  unfoldable pub decode_mcp_tool_definition : Bytes → Result McpToolDefinition
  decode_mcp_tool_definition payload = do
    fields ← malformed (new "run request MCP tool is malformed") (decode_wire_fields payload)
    let name = trim_space (or_empty (last_bytes_field fields 1))
    let description = or_empty (last_bytes_field fields 2)
    let schema_payload = last_bytes_field fields 3
    let provider_identifier = trim_space (or_empty (last_bytes_field fields 4))
    let tool_name = trim_space (or_empty (last_bytes_field fields 5))
    refuse_if
        (not (valid_identifier name)
          || (not (valid_identifier provider_identifier)
              || (not (valid_identifier tool_name) || not (valid_utf8 description))))
        (new "run request MCP tool metadata is invalid")
    refuse_if (is_missing schema_payload) (new "run request MCP tool schema is required")
    encoded ← decode_mcp_input_schema marshal (or_empty schema_payload)
    ok (record {
      name = name;
      description = description;
      provider_identifier = provider_identifier;
      tool_name = tool_name;
      input_schema = encoded;
    })

  -- One round of `decodeMCPDescriptor`
  unfoldable pub decode_descriptor_tool : Bytes → Bytes → Result McpToolDefinition
  decode_descriptor_tool provider_identifier payload = do
    fields ←
        malformed (new "run request MCP tool descriptor is malformed") (decode_wire_fields payload)
    let tool_name = trim_space (or_empty (last_bytes_field fields 1))
    let description = or_empty (last_bytes_field fields 3)
    let schema_payload = last_bytes_field fields 4
    refuse_if
        (not (valid_identifier tool_name)
          || (not (valid_utf8 description) || is_missing schema_payload))
        (new "run request MCP tool descriptor is invalid")
    input_schema ← decode_mcp_input_schema marshal (or_empty schema_payload)
    ok (record {
      name = provider_identifier ++ text "-" ++ tool_name;
      description = description;
      provider_identifier = provider_identifier;
      tool_name = tool_name;
      input_schema = input_schema;
    })

  unfoldable pub decode_descriptor_tools : Bytes → List Bytes → Result (List McpToolDefinition)
  decode_descriptor_tools provider_identifier [] = ok []
  decode_descriptor_tools provider_identifier (payload ∷ payloads) = do
    definition ← decode_descriptor_tool provider_identifier payload
    rest ← decode_descriptor_tools provider_identifier payloads
    ok (definition ∷ rest)

  -- `decodeMCPDescriptor`
  unfoldable pub decode_mcp_descriptor : Bytes → Result (List McpToolDefinition)
  decode_mcp_descriptor payload = do
    fields ← malformed (new "run request MCP descriptor is malformed") (decode_wire_fields payload)
    let provider_identifier = trim_space (or_empty (last_bytes_field fields 2))
    refuse_if (not (valid_identifier provider_identifier))
        (new "run request MCP descriptor identifier is invalid")
    decode_descriptor_tools provider_identifier (repeated_bytes_field fields 5)

  -- The loop over the definitions of `decodeMCPTools`
  unfoldable pub decode_definitions :
      List Bytes → List McpToolDefinition → Result (List McpToolDefinition)
  decode_definitions [] result = ok result
  decode_definitions (payload ∷ payloads) result =
      decode_mcp_tool_definition payload >>= λ definition.
      append_definition definition result >>= λ result'. decode_definitions payloads result'

  -- The loop over the descriptors of `decodeMCPTools`
  unfoldable pub decode_descriptors :
      List Bytes → List McpToolDefinition → Result (List McpToolDefinition)
  decode_descriptors [] result = ok result
  decode_descriptors (payload ∷ payloads) result = decode_mcp_descriptor payload >>= λ definitions.
      append_definitions definitions result >>= λ result'. decode_descriptors payloads result'

  -- The block of `decodeMCPTools` on field 4
  unfoldable pub decode_tools_field : Option Bytes → Result (List McpToolDefinition)
  decode_tools_field none = ok []
  decode_tools_field (some payload) =
      malformed (new "run request MCP tools are malformed") (decode_wire_fields payload)
      >>= λ fields. decode_definitions (repeated_bytes_field fields 1) []

  -- and on field 6
  unfoldable pub decode_options_field :
      Option Bytes → List McpToolDefinition → Result (List McpToolDefinition)
  decode_options_field none result = ok result
  decode_options_field (some payload) result =
      malformed (new "run request MCP filesystem options are malformed")
        (decode_wire_fields payload)
      >>= λ fields.
          if not (or_zero (last_varint_field fields 1) == 0)
          then decode_descriptors (repeated_bytes_field fields 3) result
          else ok result

  -- `decodeMCPTools`
  unfoldable pub decode_mcp_tools : List WireField → Result (List McpToolDefinition)
  decode_mcp_tools run_fields = decode_tools_field (last_bytes_field run_fields 4) >>= λ result.
      decode_options_field (last_bytes_field run_fields 6) result
