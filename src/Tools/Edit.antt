-- ===== src/Tools/Edit.antt =====
-- The Edit tool of internal/protocol/tool_edit.go.
pub mod Once
use cursor_cli_byok.Base.{
  ℕ, Bool, true, false, not, ◌&&◌, [], Bytes, Result, ok, new, ◌>>=◌, ◌>>◌, refuse_if, ltb, ◌==◌,
  if◌then◌else◌,
}
use cursor_cli_byok.Go.Strings.{is_empty, text, trim_space, same}
use cursor_cli_byok.Go.Words.{count, replace_first, replace_all}
use cursor_cli_byok.Wire.Protowire.{Protowire}
use cursor_cli_byok.Wire.Encode.{append_string, append_message}
use cursor_cli_byok.Tools.Types.{ToolRequest, ToolDispatch}
use cursor_cli_byok.Tools.Json.{ToolJson}
use cursor_cli_byok.Tools.Requests.{
  validate_tool_request, execute_message, started_message, completed_message,
}
use cursor_cli_byok.Tools.Arguments.{decode_edit_arguments}

-- `matchesForReplacement`
unfoldable pub matches_for_replacement : ℕ → Bool → ℕ
matches_for_replacement matches replace_all = if replace_all then matches else 1

module _ ⦃j : ToolJson⦄ where
  -- `ApplyEditArguments`: the new content, and how many places it changed.
  unfoldable pub apply_edit_arguments : Bytes → Bytes → Result (Bytes × ℕ)
  apply_edit_arguments raw content = do
    arguments ← decode_edit_arguments raw
    let matches = count content arguments.old_string
    refuse_if (matches == 0) (new "apply Edit tool: old_string was not found")
    refuse_if (ltb 1 matches && not arguments.replace_all)
        (new "apply Edit tool: old_string has multiple matches; set replace_all to true")
    ok (
      if arguments.replace_all
          then replace_all content arguments.old_string arguments.new_string
          else replace_first content arguments.old_string arguments.new_string,
      matches_for_replacement matches arguments.replace_all,
    )

  module _ ⦃w : Protowire⦄ where
    unfoldable pub encode_edit_read_dispatch : ToolRequest → Result ToolDispatch
    encode_edit_read_dispatch request = do
      validate_tool_request request
      refuse_if (not (same request.name (text "Edit")))
          (new "encode Edit tool: tool name is invalid")
      arguments ← decode_edit_arguments request.arguments
      let read_args = append_string (append_string [] 1 arguments.path) 2 request.call_id
      let edit_call = append_message [] 1 (append_string [] 1 arguments.path)
      ok (record {
        execute = execute_message request 7 read_args;
        started = started_message request.call_id (append_message [] 12 edit_call);
      })

    unfoldable pub encode_edit_failure_completed : ToolRequest → Bytes → Result Bytes
    encode_edit_failure_completed request detail = do
      validate_tool_request request
      refuse_if (not (same request.name (text "Edit")))
          (new "encode Edit tool: tool name is invalid")
      arguments ← decode_edit_arguments request.arguments
      let detail = trim_space detail
      refuse_if (is_empty detail) (new "encode Edit tool: failure detail is required")
      let edit_error = append_string (append_string [] 1 arguments.path) 2 detail
      let edit_result = append_message [] 7 (append_string edit_error 5 detail)
      let edit_call = append_message [] 1 (append_string [] 1 arguments.path)
      ok (
          completed_message request.call_id
            (append_message [] 12 (append_message edit_call 2 edit_result)))
