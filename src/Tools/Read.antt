-- ===== src/Tools/Read.antt =====
-- The Read tool of internal/protocol/tools.go.
use cursor_cli_byok.Base.{
  ℕ, ◌%◌, ◌^◌, Bool, true, false, not, ◌||◌, Option, none, some, List, [], ◌∷◌, Bytes, Result,
  Outcome, ok, new, wrap, ◌>>=◌, ◌>>◌, refuse_if, map_err, ◌==◌, if◌then◌else◌,
}
use cursor_cli_byok.Go.Strings.{is_empty, text, trim_space, has_byte}
use cursor_cli_byok.Provider.{ℤ, is_negative}
use cursor_cli_byok.Wire.Protowire.{Protowire}
use cursor_cli_byok.Wire.Encode.{append_string, append_message, append_varint}
use cursor_cli_byok.Wire.Fields.{
  decode_wire_fields, last_bytes_field, last_varint_field, or_empty, or_zero,
}
use cursor_cli_byok.Protocol.Text.{valid_identifier, fallback_string}
use cursor_cli_byok.Protocol.Deltas.{to_uint64}
use cursor_cli_byok.Protocol.Schema.{malformed}
use cursor_cli_byok.Protocol.Client.{required, ClientMessage}
use cursor_cli_byok.Tools.Types.{ToolDispatch}
use cursor_cli_byok.Tools.Requests.{started_message, completed_message, first_failure}
use cursor_cli_byok.Tools.Bridge.{is_exec_message}

pub record ReadToolRequest : Type 0 where
  pub message_id : ℕ
  pub exec_id : Bytes
  pub call_id : Bytes
  pub path : Bytes
  pub offset : Option ℤ
  pub limit : Option ℕ

pub record ReadToolResult : Type 0 where
  pub message_id : ℕ
  pub exec_id : Bytes
  pub path : Bytes
  pub content : Bytes
  pub is_error : Bool
  pub error : Bytes

abbrev read_failures : List (ℕ × Bytes)
read_failures =
    (2, text "read failed")
    ∷ (3, text "read rejected")
    ∷ (4, text "file not found")
    ∷ (5, text "permission denied")
    ∷ (6, text "invalid file")
    ∷ []

abbrev negative_offset : Option ℤ → Bool
negative_offset none = false
negative_offset (some offset) = is_negative offset

abbrev zero_limit : Option ℕ → Bool
zero_limit none = false
zero_limit (some limit) = limit == 0

unfoldable pub validate_read_tool_request : ReadToolRequest → Outcome
validate_read_tool_request request = do
  refuse_if (request.message_id == 0) (new "encode read tool: message ID is required")
  refuse_if
      (not (valid_identifier (trim_space request.exec_id))
        || not (valid_identifier (trim_space request.call_id)))
      (new "encode read tool: exec ID and call ID are required")
  refuse_if (is_empty request.path || has_byte 0 request.path)
      (new "encode read tool: path is required")
  refuse_if (negative_offset request.offset) (new "encode read tool: offset must not be negative")
  refuse_if (zero_limit request.limit) (new "encode read tool: limit must be positive")

module _ ⦃w : Protowire⦄ where
  append_offset : Bytes → ℕ → Option ℤ → Bytes
  append_offset args field none = args
  append_offset args field (some offset) = append_varint args field (to_uint64 offset)

  append_limit : Bytes → ℕ → Option ℕ → Bytes
  append_limit args field none = args
  append_limit args field (some limit) = append_varint args field limit

  -- The result of a read on the display.
  display_result : ReadToolRequest → ReadToolResult → Bytes
  display_result request result =
      if result.is_error
      then append_message [] 2 (append_string [] 1 result.error)
      else append_message [] 1 (
          append_string (append_string [] 1 result.content) 7
            (if is_empty result.path then request.path else result.path))

  append_display_result : Bytes → ReadToolRequest → Option ReadToolResult → Bytes
  unfolding display_result
  append_display_result call request none = call
  append_display_result call request (some result) =
      append_message call 2 (display_result request result)

  unfoldable pub encode_read_tool_call : ReadToolRequest → Option ReadToolResult → Bytes
  unfolding append_offset append_limit append_display_result
  encode_read_tool_call request result =
      let args = append_offset (append_string [] 1 request.path) 2 request.offset in
      let args = append_limit args 3 request.limit in
      append_message [] 8 (append_display_result (append_message [] 1 args) request result)

  unfoldable pub encode_read_tool_dispatch : ReadToolRequest → Result ToolDispatch
  unfolding append_offset append_limit
  encode_read_tool_dispatch request = do
    validate_read_tool_request request
    let args = append_string (append_string [] 1 request.path) 2 request.call_id
    let args = append_limit (append_offset args 4 request.offset) 5 request.limit
    let message = append_string (append_varint [] 1 request.message_id) 15 request.exec_id
    ok (record {
      execute = append_message [] 2 (append_message message 7 args);
      started = started_message request.call_id (encode_read_tool_call request none);
    })

  unfoldable pub encode_read_tool_completed : ReadToolRequest → ReadToolResult → Result Bytes
  encode_read_tool_completed request result = do
    validate_read_tool_request request
    ok (completed_message request.call_id (encode_read_tool_call request (some result)))

  -- The success of `DecodeReadToolResult`
  unfoldable pub decode_read_success : ReadToolResult → Bytes → Result ReadToolResult
  decode_read_success result payload = do
    fields ←
        malformed (new "decode read result: malformed success payload") (decode_wire_fields payload)
    let content : Bytes = elim (last_bytes_field fields 2) [
      | none ↦ or_empty (last_bytes_field fields 5)
      | some content ↦ content
    ]
    ok (record result { path = or_empty (last_bytes_field fields 1); content = content })

  -- and its failures.
  unfoldable pub decode_read_failure : ReadToolResult → Bytes × Bytes → Result ReadToolResult
  decode_read_failure result (message, payload) = do
    fields ←
        malformed (new "decode read result: malformed failure payload") (decode_wire_fields payload)
    ok (record result {
      path = or_empty (last_bytes_field fields 1);
      is_error = true;
      error = fallback_string (or_empty (last_bytes_field fields 2)) message;
    })

  unfoldable pub decode_read_tool_result : ClientMessage → Result ReadToolResult
  decode_read_tool_result message = do
    refuse_if (not (is_exec_message message.kind))
        (new "decode read result: client message is not an exec result")
    top_fields ← map_err (wrap "decode read result") (decode_wire_fields message.raw)
    exec_payload ←
        required (new "decode read result: exec message is required")
          (last_bytes_field top_fields 2)
    exec_fields ←
        map_err (wrap "decode read result: malformed exec message")
          (decode_wire_fields exec_payload)
    read_payload ←
        required (new "decode read result: read result is required")
          (last_bytes_field exec_fields 7)
    read_fields ←
        map_err (wrap "decode read result: malformed read result") (decode_wire_fields read_payload)
    let result : ReadToolResult = record {
      message_id = or_zero (last_varint_field exec_fields 1) % 2 ^ 32;
      exec_id = trim_space (or_empty (last_bytes_field exec_fields 15));
      path = [];
      content = [];
      is_error = false;
      error = [];
    }
    elim (last_bytes_field read_fields 1) [
      | some success ↦ decode_read_success result success
      | none ↦ do
        found ←
            required (new "decode read result: result variant is unsupported")
              (first_failure read_fields read_failures)
        decode_read_failure result found
    ]
