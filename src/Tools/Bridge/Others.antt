-- ===== src/Tools/Bridge/Others.antt =====
-- A message under the identity of another request, in `DecodeToolResult` of
-- internal/protocol/tool_bridge.go.
use cursor_cli_byok.Base.{
  ℕ, ◌%◌, ◌^◌, ◌≤◌, ◌<◌, ◌≡◌, ◌≢◌, refl, false, none, some, List, [], ◌∷◌, Bytes, ok, err, new, map,
  All, arith, length, ◌==◌,
}
use cursor_cli_byok.Wire.Protowire.{Protowire}
use cursor_cli_byok.Wire.Fields.{last_field, last_bytes_field, last_varint_field}
use cursor_cli_byok.Wire.RoundTrip.{
  Part, bytes_part, varint_part, IsWritable, field_of, write, write_nil, append_string-write,
  append_message-write, append_varint-write, decode_wire_fields-write,
}
use cursor_cli_byok.Protocol.Client.{exec, exec_client_payload}
use cursor_cli_byok.Tools.Types.{ToolRequest}
use cursor_cli_byok.Tools.Json.{ToolJson}
use cursor_cli_byok.Tools.Requests.{validate_tool_request, execute_message}
use cursor_cli_byok.Tools.Bridge.{is_exec_message, identity_differs, decode_tool_result}

module _ ⦃w : Protowire⦄ where
  -- What a message for a request holds: its message ID, its exec ID, and a field for the tool.
  abbrev pub parts : ToolRequest → ℕ → Bytes → List Part
  parts request field body =
      varint_part 1 request.message_id ∷ bytes_part 15 request.exec_id ∷ bytes_part field body ∷ []

  execute_message-write :
      (request : ToolRequest) (field : ℕ) (body : Bytes)
      → execute_message request field body
        ≡ write (bytes_part 2 (write (parts request field body)) ∷ [])
  unfolding execute_message
  execute_message-write request field body =
      let p = varint_part 1 request.message_id in
      let q = bytes_part 15 request.exec_id in
      rw (← write_nil) (
        rw (append_varint-write [] 1 request.message_id) (
          rw (append_string-write (p ∷ []) 15 request.exec_id) (
            rw (append_message-write (p ∷ q ∷ []) field body)
              (append_message-write [] 2 (write (parts request field body))))))

  first_id :
      (request : ToolRequest) (field : ℕ) (body : Bytes)
      → last_varint_field (map field_of (parts request field body)) 1 ≡ some request.message_id
  unfolding last_varint_field last_field
  first_id request field body = ground arith

  exec_client_payload-execute_message :
      (request : ToolRequest) (field : ℕ) (body : Bytes)
      → length (write (parts request field body)) < 2 ^ 64
      → exec_client_payload (execute_message request field body)
        ≡ ok (write (parts request field body))
  unfolding exec_client_payload last_bytes_field last_field
  exec_client_payload-execute_message request field body fits =
      rw (execute_message-write request field body) (
        rw
          (decode_wire_fields-write (bytes_part 2 (write (parts request field body)) ∷ [])
            ((omega arith, omega arith, fits), tt))
          refl)

  module _ ⦃j : ToolJson⦄ where
    -- A message that carries the identity of another request is refused: whatever the tool's field
    -- of the message holds, if its message ID is not that of a valid request, decoding it for that
    -- request is the error that the identities do not match.
    pub decode_tool_result-other :
        (other request : ToolRequest) (field : ℕ) (body : Bytes)
        → All IsWritable (parts other field body)
        → length (write (parts other field body)) < 2 ^ 64
        → 1 ≤ other.message_id
        → other.message_id < 2 ^ 32
        → other.message_id ≢ request.message_id
        → validate_tool_request request ≡ ok tt
        → decode_tool_result
            (record { kind = exec; run_request = none; raw = execute_message other field body })
            request
          ≡ err (new "decode tool result: result identity does not match request")
    unfolding decode_tool_result is_exec_message identity_differs
    decode_tool_result-other other request field body writable fits some_id small differs valid =
        let kept : other.message_id % 2 ^ 32 ≡ other.message_id = omega arith in
        let not_none : other.message_id == 0 ≡ false = ground arith in
        let not_same : other.message_id == request.message_id ≡ false = ground arith in
        rw valid (
          rw (exec_client_payload-execute_message other field body fits) (
            rw (decode_wire_fields-write (parts other field body) writable)
              (rw (first_id other field body) (rw kept (rw not_none (rw not_same refl))))))
