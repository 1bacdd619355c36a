-- ===== src/Tools/Files.antt =====
-- The Delete tool of internal/protocol/tool_files.go, and the failures it shares with the List tool.
use cursor_cli_byok.Base.{ℕ, true, none, some, List, [], ◌∷◌, Bytes, Result, Error, ok, new, ◌>>=◌}
use cursor_cli_byok.Go.Strings.{text}
use cursor_cli_byok.Runner.Int64.{of_bits}
use cursor_cli_byok.Wire.Protowire.{Protowire}
use cursor_cli_byok.Wire.Encode.{append_string}
use cursor_cli_byok.Wire.Fields.{
  WireField, decode_wire_fields, last_bytes_field, last_varint_field, or_empty, or_zero,
}
use cursor_cli_byok.Protocol.Schema.{malformed}
use cursor_cli_byok.Protocol.Client.{required}
use cursor_cli_byok.Tools.Types.{ToolRequest, ToolResult, ToolDispatch}
use cursor_cli_byok.Tools.Json.{ToolJson}
use cursor_cli_byok.Tools.Requests.{
  first_failure, with_content, encode_file_tool_dispatch, encode_direct_result_display,
}
use cursor_cli_byok.Tools.Write.{failure_detail}
use cursor_cli_byok.Tools.Arguments.{decode_delete_tool_arguments}

-- A failure: its fallback and the field of its detail, zero for none.
pub record FileFailure : Type 0 where
  pub fallback : Bytes
  pub detail_field : ℕ

abbrev delete_failures : List (ℕ × FileFailure)
delete_failures =
    (2, record { fallback = text "file not found"; detail_field = 0 })
    ∷ (3, record { fallback = text "path is not a file"; detail_field = 2 })
    ∷ (4, record { fallback = text "permission denied"; detail_field = 2 })
    ∷ (5, record { fallback = text "file is busy"; detail_field = 0 })
    ∷ (6, record { fallback = text "delete rejected"; detail_field = 2 })
    ∷ (7, record { fallback = text "delete failed"; detail_field = 2 })
    ∷ []

abbrev pub structured : Error
structured = new "decode tool result: encode structured output"

module _ ⦃w : Protowire⦄ ⦃j : ToolJson⦄ where
  -- The body of the loops over the failures of a file tool, with the tool's own error.
  unfoldable pub decode_file_failure : Error → ToolResult → FileFailure × Bytes → Result ToolResult
  decode_file_failure e result (candidate, payload) = do
    fields ← malformed e (decode_wire_fields payload)
    with_content structured
        (j.marshal_tool_error (record {
          path = or_empty (last_bytes_field fields 1);
          error = failure_detail candidate.detail_field candidate.fallback fields;
        }))
        (record result { is_error = true })

  delete_args : Bytes → Bytes → Bytes
  delete_args path call_id = append_string (append_string [] 1 path) 2 call_id

  unfoldable pub encode_delete_tool_dispatch : ToolRequest → Result ToolDispatch
  unfolding delete_args
  encode_delete_tool_dispatch request = do
    arguments ← decode_delete_tool_arguments request.arguments
    let args = delete_args arguments.path request.call_id
    ok (encode_file_tool_dispatch request 4 args 3 args)

  unfoldable pub encode_delete_display_tool_call : ToolRequest → Bytes → Result Bytes
  unfolding delete_args
  encode_delete_display_tool_call request result = do
    arguments ← decode_delete_tool_arguments request.arguments
    ok (encode_direct_result_display 3 (delete_args arguments.path request.call_id) result)

  -- The success of `decodeDeleteToolResult`
  unfoldable pub decode_delete_success : ToolResult → Bytes → Result ToolResult
  decode_delete_success result payload = do
    fields ←
        malformed (new "decode tool result: malformed delete success") (decode_wire_fields payload)
    with_content structured
        (j.marshal_delete_success (record {
          path = or_empty (last_bytes_field fields 1);
          file_size = of_bits (or_zero (last_varint_field fields 3));
        }))
        result

  unfoldable pub decode_delete_tool_result : List WireField → ToolResult → Result ToolResult
  decode_delete_tool_result exec_fields result = do
    payload ←
        required (new "decode tool result: delete result is required")
          (last_bytes_field exec_fields 4)
    fields ←
        malformed (new "decode tool result: malformed delete result") (decode_wire_fields payload)
    let result = record result { complete = true; result_payload = payload }
    elim (last_bytes_field fields 1) [
      | some success ↦ decode_delete_success result success
      | none ↦ do
        found ←
            required (new "decode tool result: delete result variant is unsupported")
              (first_failure fields delete_failures)
        decode_file_failure (new "decode tool result: malformed delete failure") result found
    ]
