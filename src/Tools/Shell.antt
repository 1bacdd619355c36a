-- ===== src/Tools/Shell.antt =====
-- The Shell tool of internal/protocol/tool_shell.go.
pub mod Stream
pub mod Finish
pub mod Terminal
use cursor_cli_byok.Base.{
  ℕ, zero, suc, Bool, true, false, not, Option, none, some, List, [], ◌∷◌, ◌++◌, Bytes, Result, ok,
  err, new, ◌>>=◌, ◌==◌, if◌then◌else◌,
}
use cursor_cli_byok.Go.Strings.{is_empty, text, trim_space}
use cursor_cli_byok.Go.Words.{split_words}
use cursor_cli_byok.Wire.Protowire.{Protowire}
use cursor_cli_byok.Wire.Encode.{append_string, append_message, append_varint}
use cursor_cli_byok.Tools.Types.{ToolRequest, ToolDispatch}
use cursor_cli_byok.Tools.Json.{ToolJson, ShellToolArguments}
use cursor_cli_byok.Tools.Requests.{execute_message, started_message}
use cursor_cli_byok.Tools.Arguments.{decode_shell_tool_arguments, float_to_int32}

-- `shellTimeout`
unfoldable pub shell_timeout : ShellToolArguments → ℕ
shell_timeout arguments = elim arguments.block_until_ms [
  | none ↦ 30000
  | some bits ↦ float_to_int32 bits
]

module _ ⦃w : Protowire⦄ where
  append_words : Bytes → List Bytes → Bytes
  append_words executable [] = executable
  append_words executable (value ∷ values) =
      let argument = append_string (append_string [] 1 (text "word")) 2 value in
      append_words (append_message executable 2 argument) values

  parsed_command : Bytes → List Bytes → Bytes
  unfolding append_words
  parsed_command command [] = []
  parsed_command command (name ∷ values) =
      let executable = append_words (append_string [] 1 name) values in
      append_message [] 2 (append_string executable 3 (trim_space command))

  -- `encodeShellParsingResult`
  unfoldable pub encode_shell_parsing_result : Bytes → Bytes
  unfolding parsed_command
  encode_shell_parsing_result command = parsed_command command (split_words command)

  -- `if arguments.Description != ""`
  abbrev pub append_description : Bytes → ℕ → ShellToolArguments → Bytes
  append_description payload field arguments =
      if is_empty arguments.description
      then payload
      else append_string payload field arguments.description

  -- The part of the arguments that only the executor gets.
  execution_metadata : Bytes → ShellToolArguments → Bytes
  execution_metadata args arguments =
      let args = append_string args 5 arguments.command in
      let args = append_message args 8 (encode_shell_parsing_result arguments.command) in
      append_varint (append_varint (append_varint args 10 40000) 13 2) 14 86400000

  unfoldable pub encode_shell_args : ShellToolArguments → Bytes → Bool → Bytes
  unfolding execution_metadata
  encode_shell_args arguments call_id include_execution_metadata =
      let args = append_string [] 1 arguments.command in
      let args = append_string args 2 arguments.working_directory in
      let args = append_varint args 3 (shell_timeout arguments) in
      let args = append_string args 4 call_id in
      append_description
        (if include_execution_metadata then execution_metadata args arguments else args) 15
        arguments

  module _ ⦃j : ToolJson⦄ where
    unfoldable pub encode_shell_tool_dispatch : ToolRequest → Result ToolDispatch
    encode_shell_tool_dispatch request = do
      arguments ← decode_shell_tool_arguments request.arguments
      let shown = append_message [] 1 (encode_shell_args arguments request.call_id false)
      let tool_call = append_message [] 1 (append_description shown 3 arguments)
      ok (record {
        execute = execute_message request 14 (encode_shell_args arguments request.call_id true);
        started = started_message request.call_id tool_call;
      })
