-- ===== src/Tools/Tests.antt =====
-- Tools on concrete bytes, over base-128 varints, and JSON of one kind of arguments each.
use cursor_cli_byok.Base.{
  ◌+◌, suc, ◌*◌, ◌≤◌, ◌<◌, ◌^◌, ◌≡◌, refl, true, false, none, some, List, [], ◌∷◌, Bytes, ok, err,
  new, ◌>>=◌, length, arith,
}
use cursor_cli_byok.Go.Strings.{same, text, trim_space, has_control, has_byte, has_prefix, is_empty}
use cursor_cli_byok.Go.Utf8.{to_valid_utf8}
use cursor_cli_byok.Go.Words.{count_from, replace_first, join_with}
use cursor_cli_byok.Wire.Protowire.{bytes_type}
use cursor_cli_byok.Wire.RoundTrip.{write, write_part}
use cursor_cli_byok.Wire.Fields.{
  WireField, empty_field, consume_value, next_field, decode_loop, decode_wire_fields, last_field,
  last_bytes_field, last_varint_field, repeated_bytes_field,
}
use cursor_cli_byok.Wire.Encode.{append_string, append_message, append_varint}
use cursor_cli_byok.Wire.Sample.{
  base128, get_varint, get_tag, get_bytes, bound, put_varint, put_tag, put_bytes,
}
use cursor_cli_byok.Provider.{contains}
use cursor_cli_byok.Protocol.Schema.{
  JsonValue, string, boolean, object, array, no_entries, entry, no_items, item, decode_proto_value,
}
use cursor_cli_byok.Tools.Values.{
  sort_entries, valid_keys, encode_entries, encode_items, encode_proto_struct, encode_kind,
  encode_proto_value,
}
use cursor_cli_byok.Tools.Values.RoundTrip.{decode_proto_value-encode}
use cursor_cli_byok.Protocol.Text.{valid_identifier, valid_utf8}
use cursor_cli_byok.Protocol.Client.{ClientMessage, exec, exec_client_payload}
use cursor_cli_byok.Tools.Types.{ToolRequest, ToolResult, fresh_result, tool_kind, exit_event}
use cursor_cli_byok.Tools.Json.{
  ToolJson, decode_strict_tool_arguments, GrepResultContent, EditArguments,
}
use cursor_cli_byok.Tools.Requests.{
  validate_tool_request, with_content, completed_message, execute_message,
}
use cursor_cli_byok.Tools.Arguments.{decode_edit_arguments}
use cursor_cli_byok.Tools.Files.{decode_delete_tool_result, decode_delete_success}
use cursor_cli_byok.Tools.Grep.{
  no_content, parse_grep_result, parse_grep_success, append_workspaces, append_grep_union,
  add_files, add_file,
}
use cursor_cli_byok.Tools.Grep.Caps.{IsCapped, parse_grep_result-IsCapped}
use cursor_cli_byok.Tools.Edit.{apply_edit_arguments, matches_for_replacement}
use cursor_cli_byok.Tools.Edit.Once.{IsEdited, apply_edit_arguments-IsEdited}
use cursor_cli_byok.Tools.Shell.Stream.{
  decode_shell_tool_result, match_events, stdout_block, stderr_block, exit_block, rejected_block,
  permission_block, background_block,
}
use cursor_cli_byok.Tools.Shell.Terminal.{IsEvent, decode_shell_tool_result-IsEvent}
use cursor_cli_byok.Tools.Summary.{
  max_mcp_result_bytes, max_mcp_result_items, truncation_notice, summarize_mcp_success, add_items,
  add_section, add_structured, item_section, bounded_mcp_section, joined_sections,
}
use cursor_cli_byok.Tools.Summary.Bounds.{summarize_mcp_success_bounded}
use cursor_cli_byok.Tools.Bridge.{
  decode_tool_result, encode_tool_completed, encode_display_of, decode_result_of, is_exec_message,
  identity_differs,
}
use cursor_cli_byok.Tools.Bridge.Identity.{
  IsAnswer, decode_tool_result-IsAnswer, encode_tool_completed-decode,
}
use cursor_cli_byok.Tools.Bridge.Others.{parts, decode_tool_result-other}

-- A path is a delete call's arguments as it stands; an edit puts `b` for `a`.
instance abbrev plain : ToolJson
plain = record {
  decode_write = λ raw. none;
  decode_delete = λ raw. some (record { path = raw }, []);
  decode_list = λ raw. none;
  decode_grep = λ raw. none;
  decode_glob = λ raw. none;
  decode_shell = λ raw. none;
  decode_edit = λ raw. some (
    record { path = raw; old_string = text "a"; new_string = text "b"; replace_all = false },
    [],
  );
  decode_mcp = λ raw. none;
  decode_object = λ raw. none;
  at_end = is_empty;
  marshal_write_success = λ content. none;
  marshal_write_error = λ content. none;
  marshal_delete_success = λ content. some content.path;
  marshal_list_result = λ content. none;
  marshal_grep_result = λ content. none;
  marshal_tool_error = λ content. none;
  marshal_value = λ value. none;
}

abbrev remove_file : ToolRequest
remove_file = record {
  message_id = 7;
  exec_id = 101 ∷ [];
  call_id = 99 ∷ [];
  name = 68 ∷ 101 ∷ 108 ∷ 101 ∷ 116 ∷ 101 ∷ [];
  arguments = 102 ∷ [];
}

-- The message with the ID 7 and the exec ID `e` that the file `f` is deleted.
abbrev removed : ClientMessage
removed = record {
  kind = exec;
  run_request = none;
  raw = 18 ∷ 12 ∷ 8 ∷ 7 ∷ 122 ∷ 1 ∷ 101 ∷ 34 ∷ 5 ∷ 10 ∷ 3 ∷ 10 ∷ 1 ∷ 102 ∷ [];
}

abbrev removed_result : ToolResult
removed_result = record (fresh_result remove_file) {
  content = 102 ∷ [];
  complete = true;
  result_payload = 10 ∷ 3 ∷ 10 ∷ 1 ∷ 102 ∷ [];
}

validates : validate_tool_request remove_file ≡ ok tt
unfolding validate_tool_request valid_identifier trim_space has_control same
validates = refl

decodes_removed : decode_tool_result removed remove_file ≡ ok removed_result
unfolding decode_tool_result validate_tool_request valid_identifier trim_space has_control same
    is_exec_message exec_client_payload identity_differs decode_result_of tool_kind text
    decode_delete_tool_result decode_delete_success with_content last_field last_bytes_field
    last_varint_field decode_wire_fields decode_loop next_field consume_value get_tag get_varint
    get_bytes bound
decodes_removed = refl

decode_tool_result-IsAnswer_example : IsAnswer removed remove_file removed_result
decode_tool_result-IsAnswer_example =
    decode_tool_result-IsAnswer removed remove_file decodes_removed

encode_tool_completed-decode_example : encode_tool_completed remove_file removed_result ≡ (
    encode_display_of (tool_kind remove_file.name) remove_file removed_result >>= λ tool_call.
    ok (completed_message remove_file.call_id tool_call))
encode_tool_completed-decode_example =
    encode_tool_completed-decode removed remove_file decodes_removed refl

abbrev another : ToolRequest
another = record remove_file { message_id = 9 }

written_fits : length (write (parts another 4 (10 ∷ 0 ∷ []))) < 2 ^ 64
unfolding write write_part put_varint put_tag put_bytes
written_fits = omega arith

-- The request with the ID 9 is another one.
decode_tool_result-other_example :
    decode_tool_result
      (record { kind = exec; run_request = none; raw = execute_message another 4 (10 ∷ 0 ∷ []) })
      remove_file
    ≡ err (new "decode tool result: result identity does not match request")
decode_tool_result-other_example =
    decode_tool_result-other another remove_file 4 (10 ∷ 0 ∷ [])
      (
        (omega arith, omega arith, omega arith),
        ((omega arith, omega arith, omega arith), ((omega arith, omega arith, omega arith), tt)),
      )
      written_fits (omega arith) (omega arith) (λ e. absurd (omega (arith, e))) validates

-- A grep that found the file `f` in one workspace.
abbrev grep_bytes : Bytes
grep_bytes = 10 ∷ 9 ∷ 34 ∷ 7 ∷ 18 ∷ 5 ∷ 18 ∷ 3 ∷ 10 ∷ 1 ∷ 102 ∷ []

abbrev grep_content : GrepResultContent
grep_content = record no_content { files = (102 ∷ []) ∷ [] }

parses_grep : parse_grep_result grep_bytes ≡ ok (grep_content, false)
unfolding parse_grep_result parse_grep_success append_workspaces append_grep_union add_files
    add_file last_field last_bytes_field repeated_bytes_field decode_wire_fields decode_loop
    next_field consume_value get_tag get_varint get_bytes bound
parses_grep = refl

parse_grep_result-IsCapped_example : IsCapped grep_content
parse_grep_result-IsCapped_example = parse_grep_result-IsCapped grep_bytes parses_grep

abbrev put_b : EditArguments
put_b = record {
  path = 102 ∷ [];
  old_string = text "a";
  new_string = text "b";
  replace_all = false;
}

reads_edit : decode_edit_arguments (102 ∷ []) ≡ ok put_b
unfolding decode_edit_arguments decode_strict_tool_arguments trim_space has_byte text
reads_edit = refl

-- Two matches are refused.
refuses_two :
    apply_edit_arguments (102 ∷ []) (text "aa")
    ≡ err (new "apply Edit tool: old_string has multiple matches; set replace_all to true")
unfolding apply_edit_arguments decode_edit_arguments decode_strict_tool_arguments trim_space
    has_byte text count_from has_prefix
refuses_two = refl

edits : apply_edit_arguments (102 ∷ []) (text "xay") ≡ ok (text "xby", 1)
unfolding apply_edit_arguments decode_edit_arguments decode_strict_tool_arguments trim_space
    has_byte text count_from replace_first has_prefix matches_for_replacement
edits = refl

apply_edit_arguments-IsEdited_example :
    IsEdited (text "a") (text "b") false (text "xay") (text "xby", 1)
apply_edit_arguments-IsEdited_example =
    apply_edit_arguments-IsEdited (102 ∷ []) (text "xay") reads_edit edits

-- The exit of a shell with the code 0.
abbrev exit_fields : Bytes
exit_fields = 114 ∷ 4 ∷ 26 ∷ 2 ∷ 8 ∷ 0 ∷ []

abbrev exited_result : ToolResult
exited_result = record (fresh_result remove_file) {
  shell_event = exit_event;
  complete = true;
  result_payload = 26 ∷ 2 ∷ 8 ∷ 0 ∷ [];
  event_payload = 8 ∷ 0 ∷ [];
}

abbrev exit_wire : List WireField
exit_wire = record (empty_field 14 bytes_type) { bytes = 26 ∷ 2 ∷ 8 ∷ 0 ∷ [] } ∷ []

decodes_exit : decode_shell_tool_result exit_wire (fresh_result remove_file) ≡ ok exited_result
unfolding decode_shell_tool_result match_events stdout_block stderr_block exit_block rejected_block
    permission_block background_block last_field last_bytes_field last_varint_field
    decode_wire_fields decode_loop next_field consume_value get_tag get_varint get_bytes bound
decodes_exit = refl

decode_shell_tool_result-IsEvent_example : IsEvent (fresh_result remove_file) exited_result
decode_shell_tool_result-IsEvent_example =
    decode_shell_tool_result-IsEvent exit_wire (fresh_result remove_file) decodes_exit

-- The text `hi`.
abbrev said_hi : Bytes
said_hi = 10 ∷ 6 ∷ 10 ∷ 4 ∷ 10 ∷ 2 ∷ 104 ∷ 105 ∷ []

summarizes : summarize_mcp_success said_hi ≡ ok (104 ∷ 105 ∷ [], false)
unfolding summarize_mcp_success add_items add_section add_structured item_section
    bounded_mcp_section joined_sections join_with to_valid_utf8 valid_utf8 text last_field
    last_bytes_field last_varint_field repeated_bytes_field decode_wire_fields decode_loop
    next_field consume_value get_tag get_varint get_bytes bound
summarizes = refl

summarize_mcp_success_bounded_example :
    2 ≤ max_mcp_result_bytes + (length truncation_notice + 2 * suc (suc max_mcp_result_items))
summarize_mcp_success_bounded_example = summarize_mcp_success_bounded said_hi summarizes

-- An object with a list of `true` and `x` under the key `a`.
abbrev small_value : JsonValue
small_value =
    object
      (entry (97 ∷ []) (array (item (boolean true) (item (string (120 ∷ [])) no_items))) no_entries)

abbrev small_value_bytes : Bytes
small_value_bytes =
    42 ∷ 18 ∷ 10 ∷ 16 ∷ 10 ∷ 1 ∷ 97 ∷ 18 ∷ 11 ∷ 50 ∷ 9 ∷ 10 ∷ 2 ∷ 32 ∷ 1 ∷ 10 ∷ 3 ∷ 26 ∷ 1 ∷ 120
    ∷ []

encodes_value : encode_proto_value 65 small_value 0 ≡ ok (small_value_bytes, 4)
unfolding encode_proto_value encode_kind encode_proto_struct encode_entries encode_items
    sort_entries valid_keys valid_utf8 append_string append_message append_varint put_varint put_tag
    put_bytes
encodes_value = refl

decode_proto_value-encode_example : decode_proto_value 65 small_value_bytes 0 ≡ ok (small_value, 4)
decode_proto_value-encode_example =
    decode_proto_value-encode 65 small_value 0 small_value_bytes 4
      (unfold sort_entries in refl, (unfold contains in refl, (tt, (tt, tt)), tt)) encodes_value
      (omega arith)
