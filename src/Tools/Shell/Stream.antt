-- ===== src/Tools/Shell/Stream.antt =====
-- `decodeShellToolResult` of internal/protocol/tool_shell.go: its blocks in their order.
use cursor_cli_byok.Base.{
  ℕ, ◌+◌, ◌%◌, ◌^◌, true, not, Option, none, some, List, ◌++◌, Bytes, Result, ok, new, ◌>>=◌, ◌>>◌,
  refuse_if, ltb, ◌==◌,
}
use cursor_cli_byok.Go.Strings.{text}
use cursor_cli_byok.Go.Decimal.{decimal}
use cursor_cli_byok.Provider.{pos}
use cursor_cli_byok.Wire.Protowire.{Protowire}
use cursor_cli_byok.Wire.Fields.{
  WireField, decode_wire_fields, last_bytes_field, last_varint_field, or_empty, or_zero,
}
use cursor_cli_byok.Protocol.Text.{fallback_string}
use cursor_cli_byok.Protocol.Schema.{malformed}
use cursor_cli_byok.Protocol.Client.{required}
use cursor_cli_byok.Tools.Types.{
  ToolResult, stdout_event, stderr_event, exit_event, start_event, rejected_event,
  permission_denied_event, backgrounded_event,
}

-- `matched` and the result.
pub record Matching : Type 0 where
  pub matched : ℕ
  pub result : ToolResult

abbrev pub one_more : Matching → ToolResult → Matching
one_more m result = record { matched = m.matched + 1; result = result }

abbrev pub start_block : Option Bytes → Matching → Result Matching
start_block none m = ok m
start_block (some payload) m =
    ok (one_more m (record m.result { shell_event = start_event; event_payload = payload }))

module _ ⦃w : Protowire⦄ where
  unfoldable pub stdout_block : Option Bytes → Matching → Result Matching
  stdout_block none m = ok m
  stdout_block (some payload) m = do
    fields ←
        malformed (new "decode tool result: malformed shell stdout") (decode_wire_fields payload)
    ok (
        one_more m (record m.result {
          shell_event = stdout_event;
          stdout_delta = or_empty (last_bytes_field fields 1);
          event_payload = payload;
        }))

  unfoldable pub stderr_block : Option Bytes → Matching → Result Matching
  stderr_block none m = ok m
  stderr_block (some payload) m = do
    fields ←
        malformed (new "decode tool result: malformed shell stderr") (decode_wire_fields payload)
    ok (
        one_more m (record m.result {
          shell_event = stderr_event;
          stderr_delta = or_empty (last_bytes_field fields 1);
          event_payload = payload;
        }))

  unfoldable pub exit_block : Option Bytes → Matching → Result Matching
  exit_block none m = ok m
  exit_block (some payload) m = do
    fields ← malformed (new "decode tool result: malformed shell exit") (decode_wire_fields payload)
    let code = or_zero (last_varint_field fields 1)
    refuse_if (ltb 2147483647 code) (new "decode tool result: shell exit code is invalid")
    ok (
        one_more m (record m.result {
          shell_event = exit_event;
          exit_code = pos code;
          cwd = or_empty (last_bytes_field fields 2);
          complete = true;
          is_error = not (code == 0);
          event_payload = payload;
        }))

  unfoldable pub rejected_block : Option Bytes → Matching → Result Matching
  rejected_block none m = ok m
  rejected_block (some payload) m = do
    fields ←
        malformed (new "decode tool result: malformed shell rejection") (decode_wire_fields payload)
    let detail = fallback_string (or_empty (last_bytes_field fields 3)) (text "approval required")
    ok (
        one_more m (record m.result {
          shell_event = rejected_event;
          complete = true;
          is_error = true;
          content = text "shell rejected: " ++ detail;
          event_payload = payload;
        }))

  unfoldable pub permission_block : Option Bytes → Matching → Result Matching
  permission_block none m = ok m
  permission_block (some payload) m = do
    fields ←
        malformed (new "decode tool result: malformed shell permission failure")
          (decode_wire_fields payload)
    let detail = fallback_string (or_empty (last_bytes_field fields 3)) (text "permission denied")
    ok (
        one_more m (record m.result {
          shell_event = permission_denied_event;
          complete = true;
          is_error = true;
          content = text "shell permission denied: " ++ detail;
          event_payload = payload;
        }))

  unfoldable pub background_block : Option Bytes → Matching → Result Matching
  background_block none m = ok m
  background_block (some payload) m = do
    fields ←
        malformed (new "decode tool result: malformed shell background result")
          (decode_wire_fields payload)
    let shell_id = or_zero (last_varint_field fields 1) % 2 ^ 32
    let pid = or_zero (last_varint_field fields 4) % 2 ^ 32
    ok (
        one_more m (record m.result {
          shell_event = backgrounded_event;
          shell_id = shell_id;
          pid = pid;
          cwd = or_empty (last_bytes_field fields 3);
          complete = true;
          content =
              text "shell backgrounded: shell_id="
              ++ (decimal shell_id ++ (text " pid=" ++ decimal pid));
          event_payload = payload;
        }))

  -- The seven blocks.
  unfoldable pub match_events : List WireField → ToolResult → Result Matching
  match_events fields result = do
    m ← stdout_block (last_bytes_field fields 1) (record { matched = 0; result = result })
    m ← stderr_block (last_bytes_field fields 2) m
    m ← exit_block (last_bytes_field fields 3) m
    m ← start_block (last_bytes_field fields 4) m
    m ← rejected_block (last_bytes_field fields 5) m
    m ← permission_block (last_bytes_field fields 6) m
    background_block (last_bytes_field fields 7) m

  unfoldable pub decode_shell_tool_result : List WireField → ToolResult → Result ToolResult
  decode_shell_tool_result exec_fields result = do
    payload ←
        required (new "decode tool result: shell stream result is required")
          (last_bytes_field exec_fields 14)
    fields ←
        malformed (new "decode tool result: malformed shell stream") (decode_wire_fields payload)
    m ← match_events fields (record result { result_payload = payload })
    refuse_if (not (m.matched == 1)) (new "decode tool result: shell stream event is unsupported")
    ok m.result
