-- ===== src/Tools/Grep.antt =====
-- The Grep and Glob tools of internal/protocol/tool_files.go.
pub mod Caps
use cursor_cli_byok.Base.{
  ℕ, Bool, true, false, not, ◌||◌, Option, none, some, List, [], ◌∷◌, ◌++◌, Bytes, Result, ok, err,
  new, ◌>>=◌, ltb, ◌==◌, length, if◌then◌else◌,
}
use cursor_cli_byok.Go.Strings.{is_empty, text, trim_space}
use cursor_cli_byok.Runner.Int64.{of_bits}
use cursor_cli_byok.Wire.Protowire.{Protowire}
use cursor_cli_byok.Wire.Encode.{append_string, append_message, append_varint}
use cursor_cli_byok.Wire.Fields.{
  WireField, decode_wire_fields, last_bytes_field, last_varint_field, repeated_bytes_field,
  or_empty, or_zero,
}
use cursor_cli_byok.Protocol.Text.{fallback_string}
use cursor_cli_byok.Protocol.Schema.{malformed}
use cursor_cli_byok.Protocol.Client.{required}
use cursor_cli_byok.Tools.Types.{ToolRequest, ToolResult, ToolDispatch}
use cursor_cli_byok.Tools.Json.{
  ToolJson, GrepToolArguments, GlobToolArguments, GrepMatchContent, GrepCountContent,
  GrepResultContent,
}
use cursor_cli_byok.Tools.Requests.{
  with_content, encode_file_tool_dispatch, encode_direct_result_display,
}
use cursor_cli_byok.Tools.Files.{structured}
use cursor_cli_byok.Tools.Listing.{max_structured_tool_items}
use cursor_cli_byok.Tools.Arguments.{decode_grep_tool_arguments, decode_glob_tool_arguments}

abbrev has_room {ℓ} : {A : Type ℓ} → List A → Bool
has_room xs = ltb (length xs) max_structured_tool_items

-- One more count, file or match, or the flag.
unfoldable pub add_count : GrepCountContent → GrepResultContent → GrepResultContent
add_count count result =
    if has_room result.counts
    then record result { counts = result.counts ++ count ∷ [] }
    else record result { truncated = true }

unfoldable pub add_file : Bytes → GrepResultContent → GrepResultContent
add_file file result =
    if has_room result.files
    then record result { files = result.files ++ file ∷ [] }
    else record result { truncated = true }

unfoldable pub add_match : GrepMatchContent → GrepResultContent → GrepResultContent
add_match match result =
    if has_room result.matches
    then record result { matches = result.matches ++ match ∷ [] }
    else record result { truncated = true }

unfoldable pub add_files : List Bytes → GrepResultContent → GrepResultContent
add_files [] result = result
add_files (file ∷ files) result = add_files files (add_file file result)

-- `grepResultContent{}`
abbrev pub no_content : GrepResultContent
no_content = record {
  pattern_text = [];
  path = [];
  output_mode = [];
  files = [];
  matches = [];
  counts = [];
  truncated = false;
}

-- A failure of grep is a match with its text.
abbrev pub failed_content : Bytes → GrepResultContent
failed_content detail = record no_content {
  matches =
      record {
        file = [];
        line_number = of_bits 0;
        content = fallback_string detail (text "grep failed");
        is_context_line = false;
      }
      ∷ [];
}

-- `firstGrepError`
unfoldable pub first_grep_error : GrepResultContent → Bytes
first_grep_error content = first content.matches
  where
    first : List GrepMatchContent → Bytes
    first [] = text "glob failed"
    first (m ∷ ms) = if is_empty (trim_space m.content) then text "glob failed" else m.content

module _ ⦃w : Protowire⦄ where
  unfoldable pub decode_counts : List Bytes → GrepResultContent → Result GrepResultContent
  decode_counts [] result = ok result
  decode_counts (item ∷ items) result =
      malformed (new "decode tool result: malformed grep count") (decode_wire_fields item)
      >>= λ fields. decode_counts items (
          add_count
            (record {
              file = or_empty (last_bytes_field fields 1);
              count = of_bits (or_zero (last_varint_field fields 2));
            })
            result)

  unfoldable pub decode_matches : Bytes → List Bytes → GrepResultContent → Result GrepResultContent
  decode_matches file [] result = ok result
  decode_matches file (payload ∷ payloads) result =
      malformed (new "decode tool result: malformed grep content match")
        (decode_wire_fields payload)
      >>= λ fields. decode_matches file payloads (
          add_match
            (record {
              file = file;
              line_number = of_bits (or_zero (last_varint_field fields 1));
              content = or_empty (last_bytes_field fields 2);
              is_context_line = not (or_zero (last_varint_field fields 4) == 0);
            })
            result)

  unfoldable pub decode_match_files : List Bytes → GrepResultContent → Result GrepResultContent
  decode_match_files [] result = ok result
  decode_match_files (payload ∷ payloads) result =
      malformed (new "decode tool result: malformed grep file match") (decode_wire_fields payload)
      >>= λ fields.
          decode_matches (or_empty (last_bytes_field fields 1)) (repeated_bytes_field fields 2)
            result
          >>= λ result'. decode_match_files payloads result'

  -- `appendGrepUnion`
  unfoldable pub append_grep_union : Bytes → GrepResultContent → Result GrepResultContent
  append_grep_union payload result = do
    fields ← malformed (new "decode tool result: malformed grep union") (decode_wire_fields payload)
    elim (last_bytes_field fields 1) [
      | some counts ↦
          malformed (new "decode tool result: malformed grep count result")
            (decode_wire_fields counts)
          >>= λ count_fields. decode_counts (repeated_bytes_field count_fields 1) result
      | none ↦ elim (last_bytes_field fields 2) [
        | some files ↦
            malformed (new "decode tool result: malformed grep files result")
              (decode_wire_fields files)
            >>= λ file_fields. ok (add_files (repeated_bytes_field file_fields 1) result)
        | none ↦ elim (last_bytes_field fields 3) [
          | some content ↦
              malformed (new "decode tool result: malformed grep content result")
                (decode_wire_fields content)
              >>= λ content_fields.
                  decode_match_files (repeated_bytes_field content_fields 1) result
          | none ↦ err (new "decode tool result: grep union variant is unsupported")
        ]
      ]
    ]

  append_optional : Option Bytes → GrepResultContent → Result GrepResultContent
  append_optional none result = ok result
  append_optional (some payload) result = append_grep_union payload result

  -- The loop over the results of the workspaces.
  unfoldable pub append_workspaces : List Bytes → GrepResultContent → Result GrepResultContent
  unfolding append_optional
  append_workspaces [] result = ok result
  append_workspaces (payload ∷ payloads) result =
      malformed (new "decode tool result: malformed grep workspace result")
        (decode_wire_fields payload)
      >>= λ fields. append_optional (last_bytes_field fields 2) result >>= λ result'.
          append_workspaces payloads result'

  -- The success of `parseGrepResult`
  unfoldable pub parse_grep_success : Bytes → Result GrepResultContent
  unfolding append_optional
  parse_grep_success payload = do
    fields ←
        malformed (new "decode tool result: malformed grep success") (decode_wire_fields payload)
    result ← append_workspaces (repeated_bytes_field fields 4) (record no_content {
      pattern_text = or_empty (last_bytes_field fields 1);
      path = or_empty (last_bytes_field fields 2);
      output_mode = or_empty (last_bytes_field fields 3);
    })
    append_optional (last_bytes_field fields 5) result

  -- `parseGrepResult`: the content, and whether it is an error.
  unfoldable pub parse_grep_result : Bytes → Result (GrepResultContent × Bool)
  parse_grep_result payload = do
    fields ←
        malformed (new "decode tool result: malformed grep result") (decode_wire_fields payload)
    elim (last_bytes_field fields 2) [
      | some failure ↦
          malformed (new "decode tool result: malformed grep failure") (decode_wire_fields failure)
          >>= λ failure_fields.
              ok (failed_content (or_empty (last_bytes_field failure_fields 1)), true)
      | none ↦
          required (new "decode tool result: grep result variant is unsupported")
            (last_bytes_field fields 1)
          >>= λ success. parse_grep_success success >>= λ content. ok (content, false)
    ]

  optional_string : Bytes → ℕ → Bytes → Bytes
  optional_string args field value = if is_empty value then args else append_string args field value

  unfoldable pub encode_grep_exec_args : GrepToolArguments → Bytes → Bytes
  unfolding optional_string
  encode_grep_exec_args arguments call_id =
      let args = optional_string [] 1 arguments.pattern_text in
      let args = optional_string args 2 arguments.path in
      let args = optional_string args 3 arguments.glob in
      append_string (optional_string args 4 arguments.output_mode) 14 call_id

  module _ ⦃j : ToolJson⦄ where
    unfoldable pub encode_grep_tool_dispatch : ToolRequest → Result ToolDispatch
    encode_grep_tool_dispatch request = do
      arguments ← decode_grep_tool_arguments request.arguments
      let args = encode_grep_exec_args arguments request.call_id
      ok (encode_file_tool_dispatch request 5 args 5 args)

    unfoldable pub encode_grep_display_tool_call : ToolRequest → Bytes → Result Bytes
    encode_grep_display_tool_call request result = do
      arguments ← decode_grep_tool_arguments request.arguments
      let args = encode_grep_exec_args arguments request.call_id
      ok (encode_direct_result_display 5 args result)

    -- The arguments of a glob call on the display.
    display_glob_args : GlobToolArguments → Bytes
    unfolding optional_string
    display_glob_args arguments =
        append_string (optional_string [] 1 arguments.target_directory) 2 arguments.glob_pattern

    unfoldable pub encode_glob_tool_dispatch : ToolRequest → Result ToolDispatch
    unfolding display_glob_args
    encode_glob_tool_dispatch request = do
      arguments ← decode_glob_tool_arguments request.arguments
      let exec_args =
          encode_grep_exec_args
            (record {
              pattern_text = [];
              path = arguments.target_directory;
              glob = arguments.glob_pattern;
              output_mode = text "files_with_matches";
            })
            request.call_id
      ok (encode_file_tool_dispatch request 5 exec_args 4 (display_glob_args arguments))

    append_file_strings : Bytes → List Bytes → Bytes
    append_file_strings success [] = success
    append_file_strings success (file ∷ files) =
        append_file_strings (append_string success 3 file) files

    -- The result of a glob call on the display.
    unfoldable pub glob_result : GlobToolArguments → GrepResultContent × Bool → Bytes
    unfolding append_file_strings
    glob_result arguments (content, true) =
        append_message [] 2 (append_string [] 1 (first_grep_error content))
    glob_result arguments (content, false) =
        let success = append_string [] 1 arguments.glob_pattern in
        let success = append_string success 2 arguments.target_directory in
        let success = append_file_strings success content.files in
        let success = append_varint success 4 (length content.files) in
        append_message [] 1 (if content.truncated then append_varint success 5 1 else success)

    unfoldable pub append_glob_result : GlobToolArguments → Bytes → Bytes → Result Bytes
    append_glob_result arguments tool_call [] = ok tool_call
    append_glob_result arguments tool_call (b ∷ grep_result) = do
      parsed ← parse_grep_result (b ∷ grep_result)
      ok (append_message tool_call 2 (glob_result arguments parsed))

    unfoldable pub encode_glob_display_tool_call : ToolRequest → Bytes → Result Bytes
    unfolding display_glob_args
    encode_glob_display_tool_call request grep_result = do
      arguments ← decode_glob_tool_arguments request.arguments
      tool_call ←
          append_glob_result arguments (append_message [] 1 (display_glob_args arguments))
            grep_result
      ok (append_message [] 4 tool_call)

    abbrev pub grep_answer : Bytes → Bool → ToolResult → ToolResult
    grep_answer payload is_error result = record result {
      complete = true;
      result_payload = payload;
      is_error = is_error;
    }

    unfoldable pub decode_grep_tool_result : List WireField → ToolResult → Result ToolResult
    decode_grep_tool_result exec_fields result = do
      payload ←
          required (new "decode tool result: grep result is required")
            (last_bytes_field exec_fields 5)
      (content, is_error) ← parse_grep_result payload
      with_content structured (j.marshal_grep_result content) (grep_answer payload is_error result)

    unfoldable pub decode_glob_tool_result :
        List WireField → ToolRequest → ToolResult → Result ToolResult
    decode_glob_tool_result exec_fields request result = do
      payload ←
          required (new "decode tool result: glob transport result is required")
            (last_bytes_field exec_fields 5)
      (content, is_error) ← parse_grep_result payload
      arguments ← decode_glob_tool_arguments request.arguments
      with_content structured
          (j.marshal_grep_result (record content {
            pattern_text = arguments.glob_pattern;
            path = arguments.target_directory;
            output_mode = text "files_with_matches";
          }))
          (grep_answer payload is_error result)
