-- ===== src/Tools/Requests.antt =====
-- `validateToolRequest` and the envelopes that the tools of internal/protocol share, and their
-- loops over the ways to fail.
use cursor_cli_byok.Base.{
  ℕ, not, ◌||◌, Option, none, some, List, [], ◌∷◌, Bytes, Result, Outcome, ok, err, Error, new,
  ◌>>◌, refuse_if, ◌==◌,
}
use cursor_cli_byok.Go.Strings.{is_empty, trim_space, has_padding}
use cursor_cli_byok.Wire.Protowire.{Protowire}
use cursor_cli_byok.Wire.Encode.{append_string, append_message, append_varint}
use cursor_cli_byok.Wire.Fields.{WireField, last_bytes_field}
use cursor_cli_byok.Protocol.Text.{valid_identifier}
use cursor_cli_byok.Tools.Types.{ToolRequest, ToolResult, ToolDispatch}

-- `validateToolRequest`
unfoldable pub validate_tool_request : ToolRequest → Outcome
validate_tool_request request = do
  refuse_if (request.message_id == 0) (new "encode tool dispatch: message ID is required")
  refuse_if
      (not (valid_identifier (trim_space request.exec_id))
        || not (valid_identifier (trim_space request.call_id)))
      (new "encode tool dispatch: exec ID and call ID are required")
  refuse_if (is_empty request.name || has_padding request.name)
      (new "encode tool dispatch: tool name is required")
  refuse_if (is_empty request.arguments) (new "encode tool dispatch: arguments are required")

-- The loops `for _, candidate := range` over the fields of a failure: the first that is there.
unfoldable pub first_failure {ℓ} : {A : Type ℓ} → List WireField → List (ℕ × A) → Option (A × Bytes)
first_failure fields [] = none
first_failure fields ((number, candidate) ∷ rest) = elim (last_bytes_field fields number) [
  | some payload ↦ some (candidate, payload)
  | none ↦ first_failure fields rest
]

-- `json.Marshal` and the assignment to `Content`
unfoldable pub with_content : Error → Option Bytes → ToolResult → Result ToolResult
with_content e none result = err e
with_content e (some content) result = ok (record result { content = content })

module _ ⦃w : Protowire⦄ where
  -- The exec message that carries arguments under a field, and the message around it.
  unfoldable pub execute_message : ToolRequest → ℕ → Bytes → Bytes
  execute_message request field args =
      let message = append_varint [] 1 request.message_id in
      let message = append_string message 15 request.exec_id in
      append_message [] 2 (append_message message field args)

  -- The update that says that a call has started.
  unfoldable pub started_message : Bytes → Bytes → Bytes
  started_message call_id tool_call =
      let started = append_message (append_string [] 1 call_id) 2 tool_call in
      append_message [] 1 (append_message [] 2 started)

  -- The update that says that a call is complete.
  unfoldable pub completed_message : Bytes → Bytes → Bytes
  completed_message call_id tool_call =
      let completed = append_message (append_string [] 1 call_id) 2 tool_call in
      append_message [] 1 (append_message [] 3 completed)

  -- `encodeFileToolDispatch`
  unfoldable pub encode_file_tool_dispatch : ToolRequest → ℕ → Bytes → ℕ → Bytes → ToolDispatch
  encode_file_tool_dispatch request exec_field exec_args display_field display_args = record {
    execute = execute_message request exec_field exec_args;
    started =
        started_message request.call_id
          (append_message [] display_field (append_message [] 1 display_args));
  }

  -- `encodeDirectResultDisplay`
  unfoldable pub encode_direct_result_display : ℕ → Bytes → Bytes → Bytes
  encode_direct_result_display tool_field args [] =
      append_message [] tool_field (append_message [] 1 args)
  encode_direct_result_display tool_field args (b ∷ result) =
      append_message [] tool_field (append_message (append_message [] 1 args) 2 (b ∷ result))
