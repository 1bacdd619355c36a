-- ===== src/Tools/Shell/Finish.antt =====
-- `FinalizeShellToolResult`, `EncodeToolProgress` and `encodeShellDisplayToolCall` of
-- internal/protocol/tool_shell.go.
use cursor_cli_byok.Base.{
  ℕ, Bool, true, false, not, ◌&&◌, ◌||◌, List, [], ◌∷◌, ◌++◌, Bytes, Result, ok, err, new, ◌>>=◌,
  ◌>>◌, refuse_if, ◌==◌, if◌then◌else◌,
}
use cursor_cli_byok.Go.Strings.{is_empty, text, trim_space, same}
use cursor_cli_byok.Go.Decimal.{signed_decimal}
use cursor_cli_byok.Go.Words.{join_with, has_suffix}
use cursor_cli_byok.Provider.{ℤ, pos, negsuc}
use cursor_cli_byok.Wire.Protowire.{Protowire}
use cursor_cli_byok.Wire.Encode.{append_string, append_message, append_varint}
use cursor_cli_byok.Protocol.Text.{fallback_string}
use cursor_cli_byok.Protocol.Deltas.{to_uint64}
use cursor_cli_byok.Tools.Types.{
  ToolRequest, ToolResult, ShellEventKind, stdout_event, stderr_event, exit_event, start_event,
  rejected_event, permission_denied_event, backgrounded_event,
}
use cursor_cli_byok.Tools.Json.{ToolJson, ShellToolArguments}
use cursor_cli_byok.Tools.Arguments.{decode_shell_tool_arguments}
use cursor_cli_byok.Tools.Shell.{encode_shell_args, append_description}

abbrev pub is_exit : ShellEventKind → Bool
is_exit exit_event = true
is_exit _ = false

-- A line break
abbrev newline : Bytes
newline = 10 ∷ []

-- The sections of a finished command, from the trimmed output.
unfoldable pub output_sections : Bytes → Bytes → Bool → List Bytes
output_sections stdout stderr truncated =
    (if is_empty stdout then [] else stdout ∷ [])
    ++ ((if is_empty stderr
          then []
          else (if is_empty stdout
              then stderr
              else text "<stderr>" ++ (newline ++ (stderr ++ (newline ++ text "</stderr>"))))
            ∷ [])
        ++ (if truncated then text "[output truncated by cursor-cli-byok]" ∷ [] else []))

unfoldable pub finished_content : ToolResult → List Bytes → Bytes
finished_content result [] =
    text "shell exited with code="
    ++ (signed_decimal result.exit_code ++ (text " cwd=" ++ trim_space result.cwd))
finished_content result (s ∷ sections) = join_with (newline ++ newline) (s ∷ sections)

-- `FinalizeShellToolResult`
unfoldable pub finalize_shell_tool_result : ToolResult → Bytes → Bytes → Bool → Result ToolResult
finalize_shell_tool_result result stdout stderr truncated = do
  refuse_if (not (same result.name (text "Shell")) || not result.complete)
      (new "finalize shell tool result: terminal Shell result is required")
  let kept = record result { stdout = stdout; stderr = stderr; truncated = truncated }
  let sections = output_sections (trim_space stdout) (trim_space stderr) truncated
  ok (
      if is_exit result.shell_event
      then record kept { content = finished_content result sections }
      else kept)

-- `interleaveShellOutput`
unfoldable pub interleave_shell_output : Bytes → Bytes → Bytes
interleave_shell_output stdout stderr =
    if is_empty stdout
    then stderr
    else if is_empty stderr
    then stdout
    else if has_suffix stdout newline
    then stdout ++ stderr
    else stdout ++ (newline ++ stderr)

is_zero : ℤ → Bool
is_zero (pos n) = n == 0
is_zero (negsuc n) = false

module _ ⦃w : Protowire⦄ where
  progress_of : ToolResult → ShellEventKind → Result Bytes
  progress_of result stdout_event =
      ok (append_message [] 1 (append_string [] 1 result.stdout_delta))
  progress_of result stderr_event =
      ok (append_message [] 2 (append_string [] 1 result.stderr_delta))
  progress_of result start_event = ok (append_message [] 4 result.event_payload)
  progress_of result exit_event = ok (append_message [] 3 result.event_payload)
  progress_of result _ = err (new "encode tool progress: shell event is unsupported")

  unfoldable pub encode_tool_progress : ToolResult → Result Bytes
  unfolding progress_of
  encode_tool_progress result = do
    refuse_if
        (not (same result.name (text "Shell"))
          || (result.complete && not (is_exit result.shell_event)))
        (new "encode tool progress: Shell progress result is required")
    progress ← progress_of result result.shell_event
    ok (append_message [] 1 (append_message [] 12 progress))

  -- The command and where it ran, in front of a terminal message.
  ran : ShellToolArguments → ToolResult → Bytes
  ran arguments result =
      append_string (append_string [] 1 arguments.command) 2
        (fallback_string result.cwd arguments.working_directory)

  -- A terminal message after an exit, with the field of the interleaved output.
  exited : ShellToolArguments → ToolResult → ℕ → Bytes
  unfolding ran
  exited arguments result interleaved_field =
      let message = append_varint (ran arguments result) 3 (to_uint64 result.exit_code) in
      let message = append_string (append_string message 5 result.stdout) 6 result.stderr in
      let interleaved = interleave_shell_output result.stdout result.stderr in
      if is_empty interleaved then message else append_string message interleaved_field interleaved

  append_pid : Bytes → ℕ → ℕ → Bytes
  append_pid message field pid = if pid == 0 then message else append_varint message field pid

  backgrounded : ShellToolArguments → ToolResult → Bytes
  unfolding ran append_pid
  backgrounded arguments result =
      let success = append_varint (ran arguments result) 9 result.shell_id in
      let shell_result = append_message [] 1 (append_pid success 11 result.pid) in
      append_pid (append_varint shell_result 102 1) 104 result.pid

  shell_result_of : ShellToolArguments → ToolResult → ShellEventKind → Result Bytes
  unfolding exited backgrounded is_zero
  shell_result_of arguments result exit_event =
      if is_zero result.exit_code
      then ok (append_message [] 1 (exited arguments result 10))
      else ok (append_message [] 2 (exited arguments result 9))
  shell_result_of arguments result rejected_event = ok (append_message [] 4 result.event_payload)
  shell_result_of arguments result permission_denied_event =
      ok (append_message [] 7 result.event_payload)
  shell_result_of arguments result backgrounded_event = ok (backgrounded arguments result)
  shell_result_of arguments result _ =
      err (new "encode tool completed: shell terminal event is unsupported")

  -- `encodeShellResult`
  unfoldable pub encode_shell_result : ShellToolArguments → ToolResult → Result Bytes
  unfolding shell_result_of
  encode_shell_result arguments result = shell_result_of arguments result result.shell_event

  -- `if result.Complete`
  append_shell_result : Bytes → ShellToolArguments → ToolResult → Bool → Result Bytes
  append_shell_result payload arguments result false = ok payload
  append_shell_result payload arguments result true = do
    shell_result ← encode_shell_result arguments result
    ok (append_message payload 2 shell_result)

  module _ ⦃j : ToolJson⦄ where
    unfoldable pub encode_shell_display_tool_call : ToolRequest → ToolResult → Result Bytes
    unfolding append_shell_result
    encode_shell_display_tool_call request result = do
      arguments ← decode_shell_tool_arguments request.arguments
      let shown = append_message [] 1 (encode_shell_args arguments request.call_id false)
      payload ← append_shell_result shown arguments result result.complete
      ok (append_message [] 1 (append_description payload 3 arguments))
