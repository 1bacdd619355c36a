-- ===== src/Tools/Listing.antt =====
-- The List tool of internal/protocol/tool_files.go, with the tree that it flattens.
pub mod Bounds
pub mod Tree
pub mod Complete
pub mod Fits
pub mod Tests
use cursor_cli_byok.Base.{
  ℕ, zero, suc, Bool, true, false, not, ◌&&◌, ◌||◌, Option, none, some, List, [], ◌∷◌, ◌++◌, Bytes,
  Result, ok, err, new, ◌>>=◌, leb, length, if◌then◌else◌,
}
use cursor_cli_byok.Go.Strings.{is_empty, text}
use cursor_cli_byok.Go.Path.{join_path}
use cursor_cli_byok.Provider.{ℤ, pos, negsuc}
use cursor_cli_byok.Wire.Protowire.{Protowire}
use cursor_cli_byok.Wire.Encode.{append_string}
use cursor_cli_byok.Wire.Fields.{
  WireField, decode_wire_fields, last_bytes_field, repeated_bytes_field, or_empty,
}
use cursor_cli_byok.Protocol.Schema.{malformed}
use cursor_cli_byok.Protocol.Client.{required}
use cursor_cli_byok.Tools.Types.{ToolRequest, ToolResult, ToolDispatch}
use cursor_cli_byok.Tools.Json.{ToolJson, ListToolArguments}
use cursor_cli_byok.Tools.Requests.{
  first_failure, with_content, encode_file_tool_dispatch, encode_direct_result_display,
}
use cursor_cli_byok.Tools.Files.{FileFailure, decode_file_failure, structured}
use cursor_cli_byok.Tools.Arguments.{decode_list_tool_arguments}

abbrev pub max_structured_tool_items : ℕ
max_structured_tool_items = 4096

abbrev list_failures : List (ℕ × FileFailure)
list_failures =
    (2, record { fallback = text "list failed"; detail_field = 2 })
    ∷ (3, record { fallback = text "list rejected"; detail_field = 2 })
    ∷ (4, record { fallback = text "list timed out"; detail_field = 0 })
    ∷ []

abbrev pub is_full : List Bytes → Bool
is_full entries = leb max_structured_tool_items (length entries)

-- `if includeDirectory && directory != ""`
abbrev pub own_entry : Bool → Bytes → List Bytes
own_entry include directory = if include && not (is_empty directory) then directory ∷ [] else []

-- `if len(name) > 0`
abbrev pub file_entry : Bytes → Bytes → List Bytes
file_entry directory name = if is_empty name then [] else join_path directory name ∷ []

-- The truncation and the entries; on an error the entries are not used.
abbrev pub Flattened : Type 0
Flattened = Bool × List Bytes

-- The files of a directory, whose fields are read at a depth that is not the last.
abbrev pub files_at : ℕ → List WireField → List Bytes
files_at zero fields = []
files_at (suc left) fields = repeated_bytes_field fields 3

-- The loop over the children, with the recursive call.
unfoldable pub flatten_children :
    (Bytes → List Bytes → Result Flattened) → List Bytes → Bool → List Bytes → Result Flattened
flatten_children visit [] truncated entries = ok (truncated, entries)
flatten_children visit (child ∷ children) truncated entries = visit child entries >>= λ r.
    elim (is_full r.1) [
      | true ↦ ok (true, r.1)
      | false ↦ flatten_children visit children (truncated || r.0) r.1
    ]

module _ ⦃w : Protowire⦄ where
  -- The loop over the files; `true` is its return.
  unfoldable pub append_files : Bytes → List Bytes → List Bytes → Result Flattened
  append_files directory [] entries = ok (false, entries)
  append_files directory (payload ∷ payloads) entries = elim (is_full entries) [
    | true ↦ ok (true, entries)
    | false ↦
        malformed (new "decode tool result: malformed list file") (decode_wire_fields payload)
        >>= λ fields.
            append_files directory payloads
              (entries ++ file_entry directory (or_empty (last_bytes_field fields 1)))
  ]

  -- `flattenListTree`, with how many depths are left: `maximumDepth + 1 - currentDepth`.
  unfoldable pub flatten_list_tree : ℕ → Bool → Bytes → List Bytes → Result Flattened
  flatten_list_tree zero include payload entries = ok (true, entries)
  flatten_list_tree (suc left) include payload entries = elim (is_full entries) [
    | true ↦ ok (true, entries)
    | false ↦
        malformed (new "decode tool result: malformed list tree") (decode_wire_fields payload)
        >>= λ fields.
            let directory = or_empty (last_bytes_field fields 1) in
            append_files directory (files_at left fields) (entries ++ own_entry include directory)
            >>= λ r. elim r.0 [
              | true ↦ ok (true, r.1)
              | false ↦
                  flatten_children (flatten_list_tree left true) (repeated_bytes_field fields 2)
                    false r.1
            ]
  ]

  -- The depths that are left at the root.
  abbrev pub depths : ℤ → ℕ
  depths (pos maximum) = suc maximum
  depths (negsuc n) = zero

  module _ ⦃j : ToolJson⦄ where
    list_args : Bytes → Bytes → Bytes
    list_args path call_id = append_string (append_string [] 1 path) 3 call_id

    unfoldable pub encode_list_tool_dispatch : ToolRequest → Result ToolDispatch
    unfolding list_args
    encode_list_tool_dispatch request = do
      arguments ← decode_list_tool_arguments request.arguments
      let args = list_args arguments.path request.call_id
      ok (encode_file_tool_dispatch request 8 args 13 args)

    unfoldable pub encode_list_display_tool_call : ToolRequest → Bytes → Result Bytes
    unfolding list_args
    encode_list_display_tool_call request result = do
      arguments ← decode_list_tool_arguments request.arguments
      ok (encode_direct_result_display 13 (list_args arguments.path request.call_id) result)

    -- The success of `decodeListToolResult`
    unfoldable pub decode_list_success : ListToolArguments → ToolResult → Bytes → Result ToolResult
    decode_list_success arguments result payload = do
      fields ←
          malformed (new "decode tool result: malformed list success") (decode_wire_fields payload)
      tree ← required (new "decode tool result: list tree is required") (last_bytes_field fields 1)
      (truncated, entries) ← flatten_list_tree (depths arguments.depth) false tree []
      with_content structured
          (j.marshal_list_result
            (record { path = arguments.path; entries = entries; truncated = truncated }))
          result

    unfoldable pub decode_list_tool_result :
        List WireField → ToolRequest → ToolResult → Result ToolResult
    decode_list_tool_result exec_fields request result = do
      payload ←
          required (new "decode tool result: list result is required")
            (last_bytes_field exec_fields 8)
      fields ←
          malformed (new "decode tool result: malformed list result") (decode_wire_fields payload)
      let result = record result { complete = true; result_payload = payload }
      arguments ← decode_list_tool_arguments request.arguments
      elim (last_bytes_field fields 1) [
        | some success ↦ decode_list_success arguments result success
        | none ↦ do
          found ←
              required (new "decode tool result: list result variant is unsupported")
                (first_failure fields list_failures)
          decode_file_failure (new "decode tool result: malformed list failure") result found
      ]
