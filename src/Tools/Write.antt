-- ===== src/Tools/Write.antt =====
-- The Write tool of internal/protocol/tool_bridge.go.
use cursor_cli_byok.Base.{
  ℕ, zero, suc, Bool, true, false, not, Option, none, some, List, [], ◌∷◌, Bytes, Result, ok, new,
  ◌>>=◌, ◌==◌,
}
use cursor_cli_byok.Go.Strings.{text}
use cursor_cli_byok.Runner.Int64.{of_bits}
use cursor_cli_byok.Wire.Protowire.{Protowire}
use cursor_cli_byok.Wire.Encode.{append_string, append_message, append_varint}
use cursor_cli_byok.Wire.Fields.{
  WireField, decode_wire_fields, last_bytes_field, last_varint_field, or_empty, or_zero,
}
use cursor_cli_byok.Protocol.Text.{fallback_string}
use cursor_cli_byok.Protocol.Schema.{malformed}
use cursor_cli_byok.Protocol.Client.{required}
use cursor_cli_byok.Tools.Types.{ToolRequest, ToolResult, ToolDispatch}
use cursor_cli_byok.Tools.Json.{ToolJson}
use cursor_cli_byok.Tools.Requests.{first_failure, with_content, execute_message, started_message}
use cursor_cli_byok.Tools.Arguments.{decode_write_tool_arguments}

-- A failure of `decodeWriteToolResult`: what it says by itself, and the fields of the detail and of
-- the flag, zero for none.
pub record WriteFailure : Type 0 where
  pub fallback : Bytes
  pub error_field : ℕ
  pub read_only_field : ℕ

abbrev write_failures : List (ℕ × WriteFailure)
write_failures =
    (3, record { fallback = text "permission denied"; error_field = 4; read_only_field = 5 })
    ∷ (
      4,
      record { fallback = text "no space left on device"; error_field = 0; read_only_field = 0 },
    )
    ∷ (5, record { fallback = text "write failed"; error_field = 2; read_only_field = 0 })
    ∷ (6, record { fallback = text "write rejected"; error_field = 2; read_only_field = 0 })
    ∷ []

-- A failure of `convertWriteResultToEditResult`, the field of the edit result in front.
pub record EditFailure : Type 0 where
  pub edit_field : ℕ
  pub fallback : Bytes
  pub detail_field : ℕ

abbrev edit_failures : List (ℕ × EditFailure)
edit_failures =
    (4, record { edit_field = 7; fallback = text "no space left on device"; detail_field = 0 })
    ∷ (5, record { edit_field = 7; fallback = text "write failed"; detail_field = 2 })
    ∷ (6, record { edit_field = 6; fallback = text "write rejected"; detail_field = 2 })
    ∷ []

-- The detail of a failure, if it has a field for one.
unfoldable pub failure_detail : ℕ → Bytes → List WireField → Bytes
failure_detail zero fallback fields = fallback
failure_detail (suc n) fallback fields =
    fallback_string (or_empty (last_bytes_field fields (suc n))) fallback

flag_field : ℕ → List WireField → Bool
flag_field zero fields = false
flag_field (suc n) fields = not (or_zero (last_varint_field fields (suc n)) == 0)

-- `if len(path) == 0 { path = []byte(fallbackPath) }`
abbrev or_path : Bytes → Bytes → Bytes
or_path [] fallback = fallback
or_path (b ∷ path) fallback = b ∷ path

module _ ⦃w : Protowire⦄ where
  append_lines : Bytes → Option ℕ → Bytes
  append_lines payload none = payload
  append_lines payload (some lines) = append_varint payload 3 lines

  -- The success of `convertWriteResultToEditResult`
  unfoldable pub convert_write_success : Bytes → Bytes → Result Bytes
  unfolding append_lines
  convert_write_success fallback_path payload = do
    fields ←
        malformed (new "encode tool completed: malformed write success")
          (decode_wire_fields payload)
    let path = or_path (or_empty (last_bytes_field fields 1)) fallback_path
    let success = append_lines (append_string [] 1 path) (last_varint_field fields 2)
    ok (append_message [] 1 (append_string success 7 (or_empty (last_bytes_field fields 4))))

  -- its permission failure
  unfoldable pub convert_write_permission : Bytes → Bytes → Result Bytes
  convert_write_permission fallback_path payload = do
    fields ←
        malformed (new "encode tool completed: malformed write permission failure")
          (decode_wire_fields payload)
    let path = or_path (or_empty (last_bytes_field fields 1)) fallback_path
    let detail = or_empty (last_bytes_field fields 4)
    let failure =
        append_string (append_string [] 1 path) 2
          (fallback_string detail (text "permission denied"))
    ok (append_message [] 4 (append_varint failure 3 (or_zero (last_varint_field fields 5))))

  -- and the other failures.
  unfoldable pub convert_write_failure : Bytes → List WireField → Result Bytes
  convert_write_failure fallback_path fields = do
    (candidate, payload) ←
        required (new "encode tool completed: write result variant is unsupported")
          (first_failure fields edit_failures)
    failure_fields ←
        malformed (new "encode tool completed: malformed write failure")
          (decode_wire_fields payload)
    let path = or_path (or_empty (last_bytes_field failure_fields 1)) fallback_path
    let detail = failure_detail candidate.detail_field candidate.fallback failure_fields
    ok (append_message [] candidate.edit_field (append_string (append_string [] 1 path) 2 detail))

  unfoldable pub convert_write_result_to_edit_result : Bytes → Bytes → Result Bytes
  convert_write_result_to_edit_result write_result fallback_path = do
    fields ←
        malformed (new "encode tool completed: malformed write result")
          (decode_wire_fields write_result)
    elim (last_bytes_field fields 1) [
      | some payload ↦ convert_write_success fallback_path payload
      | none ↦ elim (last_bytes_field fields 3) [
        | some payload ↦ convert_write_permission fallback_path payload
        | none ↦ convert_write_failure fallback_path fields
      ]
    ]

  module _ ⦃j : ToolJson⦄ where
    -- `if writeResult != nil`
    unfoldable pub append_edit_result : Bytes → Bytes → Bytes → Result Bytes
    append_edit_result edit_tool_call [] path = ok edit_tool_call
    append_edit_result edit_tool_call (b ∷ write_result) path = do
      edit_result ← convert_write_result_to_edit_result (b ∷ write_result) path
      ok (append_message edit_tool_call 2 edit_result)

    unfoldable pub encode_write_display_tool_call : ToolRequest → Bytes → Result Bytes
    encode_write_display_tool_call request write_result = do
      arguments ← decode_write_tool_arguments request.arguments
      let edit_args = append_string (append_string [] 1 arguments.path) 6 arguments.contents
      edit_tool_call ←
          append_edit_result (append_message [] 1 edit_args) write_result arguments.path
      ok (append_message [] 12 edit_tool_call)

    unfoldable pub encode_write_tool_dispatch : ToolRequest → Result ToolDispatch
    encode_write_tool_dispatch request = do
      arguments ← decode_write_tool_arguments request.arguments
      let exec_args = append_string (append_string [] 1 arguments.path) 2 arguments.contents
      let exec_args = append_varint (append_string exec_args 3 request.call_id) 4 1
      let exec_args = append_string exec_args 6 (text "utf-8")
      tool_call ← encode_write_display_tool_call request []
      ok (record {
        execute = execute_message request 3 exec_args;
        started = started_message request.call_id tool_call;
      })

    -- The success of `decodeWriteToolResult`
    unfoldable pub decode_write_success : ToolResult → Bytes → Result ToolResult
    decode_write_success result payload = do
      fields ←
          malformed (new "decode tool result: malformed write success") (decode_wire_fields payload)
      with_content (new "decode tool result: encode write success")
          (j.marshal_write_success (record {
            path = or_empty (last_bytes_field fields 1);
            lines_created = of_bits (or_zero (last_varint_field fields 2));
            file_size = of_bits (or_zero (last_varint_field fields 3));
          }))
          result

    -- and its failures.
    unfoldable pub decode_write_failure : ToolResult → WriteFailure × Bytes → Result ToolResult
    unfolding flag_field
    decode_write_failure result (candidate, payload) = do
      fields ←
          malformed (new "decode tool result: malformed write failure") (decode_wire_fields payload)
      with_content (new "decode tool result: encode write failure")
          (j.marshal_write_error (record {
            path = or_empty (last_bytes_field fields 1);
            error = failure_detail candidate.error_field candidate.fallback fields;
            read_only = flag_field candidate.read_only_field fields;
          }))
          (record result { is_error = true })

    unfoldable pub decode_write_tool_result : List WireField → ToolResult → Result ToolResult
    decode_write_tool_result exec_fields result = do
      payload ←
          required (new "decode tool result: write result is required")
            (last_bytes_field exec_fields 3)
      fields ←
          malformed (new "decode tool result: malformed write result") (decode_wire_fields payload)
      let result = record result { complete = true; result_payload = payload }
      elim (last_bytes_field fields 1) [
        | some success ↦ decode_write_success result success
        | none ↦ do
          found ←
              required (new "decode tool result: write result variant is unsupported")
                (first_failure fields write_failures)
          decode_write_failure result found
      ]
