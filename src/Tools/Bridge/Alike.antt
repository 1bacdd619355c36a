-- ===== src/Tools/Bridge/Alike.antt =====
-- The decoders of the tools' results in internal/protocol, and the identity of the result they are
-- given.
use cursor_cli_byok.Base.{
  ◌≡◌, refl, true, false, none, some, Option, Option-cases, inl, inr, List, [], Bytes, Error, ok,
  subst, bind-eq-ok, ok_eq, map_err,
}
use cursor_cli_byok.Wire.Protowire.{Protowire}
use cursor_cli_byok.Wire.Fields.{WireField, decode_wire_fields, last_bytes_field}
use cursor_cli_byok.Protocol.Client.{required}
use cursor_cli_byok.Tools.Types.{
  ToolRequest, ToolResult, ToolKind, write_tool, delete_tool, list_tool, grep_tool, glob_tool,
  shell_tool, mcp_tool, unsupported_tool,
}
use cursor_cli_byok.Tools.Json.{ToolJson, ListToolArguments}
use cursor_cli_byok.Tools.Requests.{with_content, first_failure}
use cursor_cli_byok.Tools.Arguments.{decode_list_tool_arguments, decode_glob_tool_arguments}
use cursor_cli_byok.Tools.Write.{
  WriteFailure, decode_write_success, decode_write_failure, decode_write_tool_result,
}
use cursor_cli_byok.Tools.Files.{
  FileFailure, decode_file_failure, decode_delete_success, decode_delete_tool_result,
}
use cursor_cli_byok.Tools.Listing.{
  flatten_list_tree, depths, decode_list_success, decode_list_tool_result,
}
use cursor_cli_byok.Tools.Grep.{
  parse_grep_result, grep_answer, decode_grep_tool_result, decode_glob_tool_result,
}
use cursor_cli_byok.Tools.Shell.Terminal.{decode_shell_tool_result-IsEvent}
use cursor_cli_byok.Tools.Summary.{summarize_mcp_result}
use cursor_cli_byok.Tools.Mcp.{decode_mcp_tool_result}
use cursor_cli_byok.Tools.Bridge.{decode_result_of}

-- A result under the identity of another.
abbrev pub IsAlike : ToolResult → ToolResult → Type 0
IsAlike before after =
    (after.message_id ≡ before.message_id)
    × (after.exec_id ≡ before.exec_id)
    × (after.name ≡ before.name)

abbrev unchanged : (result : ToolResult) → IsAlike result result
unchanged result = (refl, refl, refl)

with_content-IsAlike :
    (e : Error) (content : Option Bytes) (result : ToolResult) {out : ToolResult}
    → with_content e content result ≡ ok out
    → IsAlike result out
unfolding with_content
with_content-IsAlike e none result h = absurd (cc h)
with_content-IsAlike e (some c) result h = subst (IsAlike result) (ok_eq h) (unchanged result)

module _ ⦃w : Protowire⦄ ⦃j : ToolJson⦄ where
  decode_write_success-IsAlike :
      (result : ToolResult) (payload : Bytes) {out : ToolResult}
      → decode_write_success result payload ≡ ok out
      → IsAlike result out
  unfolding decode_write_success
  decode_write_success-IsAlike result payload e =
      let (fields, wire, e1) = bind-eq-ok (map_err _ (decode_wire_fields payload)) _ e in
      with_content-IsAlike _ _ result e1

  decode_write_failure-IsAlike :
      (result : ToolResult) (found : WriteFailure × Bytes) {out : ToolResult}
      → decode_write_failure result found ≡ ok out
      → IsAlike result out
  unfolding decode_write_failure
  decode_write_failure-IsAlike result (candidate, payload) e =
      let (fields, wire, e1) = bind-eq-ok (map_err _ (decode_wire_fields payload)) _ e in
      with_content-IsAlike _ _ (record result { is_error = true }) e1

  decode_write_tool_result-IsAlike :
      (fields : List WireField) (result : ToolResult) {out : ToolResult}
      → decode_write_tool_result fields result ≡ ok out
      → IsAlike result out
  unfolding decode_write_tool_result
  decode_write_tool_result-IsAlike fields result e =
      let (payload, found, e1) = bind-eq-ok (required _ (last_bytes_field fields 3)) _ e in
      let (inner, wire, e2) = bind-eq-ok (map_err _ (decode_wire_fields payload)) _ e1 in
      let complete = record result { complete = true; result_payload = payload } in
      elim (Option-cases (last_bytes_field inner 1)) [
        | inr (success, q) ↦ decode_write_success-IsAlike complete success (rw q at e2)
        | inl q ↦
            let (failure, first, e3) =
              bind-eq-ok (required _ (first_failure inner _)) _ (rw q at e2) in
            decode_write_failure-IsAlike complete failure e3
      ]

  decode_file_failure-IsAlike :
      (x : Error) (result : ToolResult) (found : FileFailure × Bytes) {out : ToolResult}
      → decode_file_failure x result found ≡ ok out
      → IsAlike result out
  unfolding decode_file_failure
  decode_file_failure-IsAlike x result (candidate, payload) e =
      let (fields, wire, e1) = bind-eq-ok (map_err _ (decode_wire_fields payload)) _ e in
      with_content-IsAlike _ _ (record result { is_error = true }) e1

  decode_delete_success-IsAlike :
      (result : ToolResult) (payload : Bytes) {out : ToolResult}
      → decode_delete_success result payload ≡ ok out
      → IsAlike result out
  unfolding decode_delete_success
  decode_delete_success-IsAlike result payload e =
      let (fields, wire, e1) = bind-eq-ok (map_err _ (decode_wire_fields payload)) _ e in
      with_content-IsAlike _ _ result e1

  decode_delete_tool_result-IsAlike :
      (fields : List WireField) (result : ToolResult) {out : ToolResult}
      → decode_delete_tool_result fields result ≡ ok out
      → IsAlike result out
  unfolding decode_delete_tool_result
  decode_delete_tool_result-IsAlike fields result e =
      let (payload, found, e1) = bind-eq-ok (required _ (last_bytes_field fields 4)) _ e in
      let (inner, wire, e2) = bind-eq-ok (map_err _ (decode_wire_fields payload)) _ e1 in
      let complete = record result { complete = true; result_payload = payload } in
      elim (Option-cases (last_bytes_field inner 1)) [
        | inr (success, q) ↦ decode_delete_success-IsAlike complete success (rw q at e2)
        | inl q ↦
            let (failure, first, e3) =
              bind-eq-ok (required _ (first_failure inner _)) _ (rw q at e2) in
            decode_file_failure-IsAlike _ complete failure e3
      ]

  decode_list_success-IsAlike :
      (arguments : ListToolArguments) (result : ToolResult) (payload : Bytes) {out : ToolResult}
      → decode_list_success arguments result payload ≡ ok out
      → IsAlike result out
  unfolding decode_list_success
  decode_list_success-IsAlike arguments result payload e =
      let (fields, wire, e1) = bind-eq-ok (map_err _ (decode_wire_fields payload)) _ e in
      let (tree, found, e2) = bind-eq-ok (required _ (last_bytes_field fields 1)) _ e1 in
      let (flat, listed, e3) =
        bind-eq-ok (flatten_list_tree (depths arguments.depth) false tree []) _ e2 in
      with_content-IsAlike _ _ result e3

  decode_list_tool_result-IsAlike :
      (fields : List WireField) (request : ToolRequest) (result : ToolResult) {out : ToolResult}
      → decode_list_tool_result fields request result ≡ ok out
      → IsAlike result out
  unfolding decode_list_tool_result
  decode_list_tool_result-IsAlike fields request result e =
      let (payload, found, e1) = bind-eq-ok (required _ (last_bytes_field fields 8)) _ e in
      let (inner, wire, e2) = bind-eq-ok (map_err _ (decode_wire_fields payload)) _ e1 in
      let complete = record result { complete = true; result_payload = payload } in
      let (arguments, read, e3) = bind-eq-ok (decode_list_tool_arguments request.arguments) _ e2 in
      elim (Option-cases (last_bytes_field inner 1)) [
        | inr (success, q) ↦ decode_list_success-IsAlike arguments complete success (rw q at e3)
        | inl q ↦
            let (failure, first, e4) =
              bind-eq-ok (required _ (first_failure inner _)) _ (rw q at e3) in
            decode_file_failure-IsAlike _ complete failure e4
      ]

  decode_grep_tool_result-IsAlike :
      (fields : List WireField) (result : ToolResult) {out : ToolResult}
      → decode_grep_tool_result fields result ≡ ok out
      → IsAlike result out
  unfolding decode_grep_tool_result
  decode_grep_tool_result-IsAlike fields result e =
      let (payload, found, e1) = bind-eq-ok (required _ (last_bytes_field fields 5)) _ e in
      let (parsed, read, e2) = bind-eq-ok (parse_grep_result payload) _ e1 in
      with_content-IsAlike _ _ (grep_answer payload parsed.1 result) e2

  decode_glob_tool_result-IsAlike :
      (fields : List WireField) (request : ToolRequest) (result : ToolResult) {out : ToolResult}
      → decode_glob_tool_result fields request result ≡ ok out
      → IsAlike result out
  unfolding decode_glob_tool_result
  decode_glob_tool_result-IsAlike fields request result e =
      let (payload, found, e1) = bind-eq-ok (required _ (last_bytes_field fields 5)) _ e in
      let (parsed, read, e2) = bind-eq-ok (parse_grep_result payload) _ e1 in
      let (arguments, read', e3) = bind-eq-ok (decode_glob_tool_arguments request.arguments) _ e2 in
      with_content-IsAlike _ _ (grep_answer payload parsed.1 result) e3

  decode_mcp_tool_result-IsAlike :
      (fields : List WireField) (result : ToolResult) {out : ToolResult}
      → decode_mcp_tool_result fields result ≡ ok out
      → IsAlike result out
  unfolding decode_mcp_tool_result
  decode_mcp_tool_result-IsAlike fields result e =
      let (payload, found, e1) = bind-eq-ok (required _ (last_bytes_field fields 11)) _ e in
      let (summary, read, e2) = bind-eq-ok (summarize_mcp_result payload) _ e1 in
      subst (IsAlike result) (ok_eq e2) (unchanged result)

  pub decode_result_of-IsAlike :
      (kind : ToolKind) (fields : List WireField) (request : ToolRequest) (result : ToolResult)
      {out : ToolResult}
      → decode_result_of kind fields request result ≡ ok out
      → IsAlike result out
  unfolding decode_result_of
  decode_result_of-IsAlike write_tool fields request result e =
      decode_write_tool_result-IsAlike fields result e
  decode_result_of-IsAlike delete_tool fields request result e =
      decode_delete_tool_result-IsAlike fields result e
  decode_result_of-IsAlike list_tool fields request result e =
      decode_list_tool_result-IsAlike fields request result e
  decode_result_of-IsAlike grep_tool fields request result e =
      decode_grep_tool_result-IsAlike fields result e
  decode_result_of-IsAlike glob_tool fields request result e =
      decode_glob_tool_result-IsAlike fields request result e
  decode_result_of-IsAlike shell_tool fields request result e =
      let event = decode_shell_tool_result-IsEvent fields result e in
      (event.same_message, event.same_exec, event.same_name)
  decode_result_of-IsAlike mcp_tool fields request result e =
      decode_mcp_tool_result-IsAlike fields result e
  decode_result_of-IsAlike unsupported_tool fields request result e = absurd (cc e)
