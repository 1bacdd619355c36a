-- ===== src/Tools/Arguments.antt =====
-- The `decode...ToolArguments` functions of internal/protocol and the checks they make.
use cursor_cli_byok.Base.{
  ℕ, zero, ◌+◌, ◌-◌, ◌/◌, ◌%◌, ◌^◌, Bool, false, not, ◌&&◌, ◌||◌, Option, none, some, Bytes, Result,
  ok, err, new, ◌>>=◌, ◌>>◌, refuse_if, ltb, ◌==◌, if◌then◌else◌,
}
use cursor_cli_byok.Go.Strings.{is_empty, trim_space, has_byte, same, text}
use cursor_cli_byok.Provider.{ℤ, pos, is_negative}
use cursor_cli_byok.Protocol.Text.{valid_identifier}
use cursor_cli_byok.Protocol.Schema.{JsonEntries}
use cursor_cli_byok.Tools.Json.{
  ToolJson, decode_strict_tool_arguments, WriteToolArguments, DeleteToolArguments,
  ListToolArguments, GrepToolArguments, GlobToolArguments, ShellToolArguments, EditArguments,
  McpToolArguments,
}

-- `strings.TrimSpace(path) == "" || strings.IndexByte(path, 0) >= 0`
abbrev pub bad_path : Bytes → Bool
bad_path path = is_empty (trim_space path) || has_byte 0 path

-- The depth of a list request that names none.
default_depth : ℤ → ℤ
default_depth (pos zero) = pos 64
default_depth depth = depth

-- `*f < 0 || *f > math.MaxInt32` on the bits of a float64 that is not NaN: positive numbers are in
-- the order of their bits, and 2147483647 is 0x41DFFFFFFFC00000.
unfoldable pub out_of_int32 : ℕ → Bool
out_of_int32 bits = ltb (2 ^ 63) bits || (not (bits == 2 ^ 63) && ltb 0x41DFFFFFFFC00000 bits)

-- `int32(*f)` for a float64 between 0 and `math.MaxInt32`: the bits behind the point are dropped.
unfoldable pub float_to_int32 : ℕ → ℕ
float_to_int32 bits =
    let exponent = bits / 2 ^ 52 % 2 ^ 11 in
    let mantissa = 2 ^ 52 + bits % 2 ^ 52 in
    if ltb exponent 1023 then 0 else mantissa / 2 ^ (52 + 1023 - exponent)

module _ ⦃j : ToolJson⦄ where
  unfoldable pub decode_write_tool_arguments : Bytes → Result WriteToolArguments
  decode_write_tool_arguments raw = do
    arguments ←
        decode_strict_tool_arguments j.decode_write (new "encode Write tool: arguments are invalid")
          raw
    refuse_if (bad_path arguments.path) (new "encode Write tool: path is required")
    ok arguments

  unfoldable pub decode_delete_tool_arguments : Bytes → Result DeleteToolArguments
  decode_delete_tool_arguments raw = do
    let invalid = new "encode Delete tool: arguments are invalid"
    arguments ← decode_strict_tool_arguments j.decode_delete invalid raw
    refuse_if (bad_path arguments.path) invalid
    ok arguments

  unfoldable pub decode_list_tool_arguments : Bytes → Result ListToolArguments
  unfolding default_depth
  decode_list_tool_arguments raw = do
    let invalid = new "encode List tool: arguments are invalid"
    arguments ← decode_strict_tool_arguments j.decode_list invalid raw
    refuse_if (bad_path arguments.path || is_negative arguments.depth) invalid
    ok (record arguments { depth = default_depth arguments.depth })

  unfoldable pub decode_grep_tool_arguments : Bytes → Result GrepToolArguments
  decode_grep_tool_arguments raw = do
    let invalid = new "encode Grep tool: arguments are invalid"
    arguments ← decode_strict_tool_arguments j.decode_grep invalid raw
    refuse_if (is_empty (trim_space arguments.pattern_text)) invalid
    let mode = arguments.output_mode
    refuse_if
        (not (
          is_empty mode
          || (same mode (text "content")
              || (same mode (text "files_with_matches") || same mode (text "count")))))
        (new "encode Grep tool: output mode is invalid")
    ok arguments

  unfoldable pub decode_glob_tool_arguments : Bytes → Result GlobToolArguments
  decode_glob_tool_arguments raw = do
    let invalid = new "encode Glob tool: arguments are invalid"
    arguments ← decode_strict_tool_arguments j.decode_glob invalid raw
    refuse_if (is_empty (trim_space arguments.glob_pattern)) invalid
    ok arguments

  bad_block : Option ℕ → Bool
  bad_block none = false
  bad_block (some bits) = out_of_int32 bits

  unfoldable pub decode_shell_tool_arguments : Bytes → Result ShellToolArguments
  unfolding bad_block
  decode_shell_tool_arguments raw = do
    let invalid = new "encode Shell tool: arguments are invalid"
    arguments ← decode_strict_tool_arguments j.decode_shell invalid raw
    let command = trim_space arguments.command
    let working_directory = trim_space arguments.working_directory
    refuse_if
        (is_empty command || (has_byte 0 working_directory || bad_block arguments.block_until_ms))
        invalid
    ok (record {
      command = command;
      description = trim_space arguments.description;
      working_directory = working_directory;
      block_until_ms = arguments.block_until_ms;
    })

  unfoldable pub decode_edit_arguments : Bytes → Result EditArguments
  decode_edit_arguments raw = do
    let invalid = new "encode Edit tool: arguments are invalid"
    arguments ← decode_strict_tool_arguments j.decode_edit invalid raw
    refuse_if (bad_path arguments.path || is_empty arguments.old_string) invalid
    ok arguments

  unfoldable pub decode_mcp_argument_object : Bytes → Result JsonEntries
  decode_mcp_argument_object raw = elim (j.decode_object raw) [
    | some (some entries, rest) ↦
        refuse_if (not (j.at_end rest)) (new "encode MCP tool: arguments have trailing JSON")
        >> ok entries
    | some (none, rest) ↦ err (new "encode MCP tool: arguments must be a JSON object")
    | none ↦ err (new "encode MCP tool: arguments must be a JSON object")
  ]

  unfoldable pub decode_mcp_tool_arguments : Bytes → Result McpToolArguments
  decode_mcp_tool_arguments raw = do
    let invalid = new "encode MCP tool: arguments are invalid"
    arguments ← decode_strict_tool_arguments j.decode_mcp invalid raw
    let name = trim_space arguments.name
    let server = trim_space arguments.server
    let tool_name = trim_space arguments.tool_name
    refuse_if
        (not (valid_identifier name)
          || (not (valid_identifier server)
              || (not (valid_identifier tool_name) || is_empty arguments.arguments)))
        invalid
    entries ← decode_mcp_argument_object arguments.arguments
    ok (record arguments { name = name; server = server; tool_name = tool_name })
