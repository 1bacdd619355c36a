-- ===== src/Tools/Summary.antt =====
-- `summarizeMCPResult` of internal/protocol/tool_mcp.go, its sections and their limits.
pub mod Bounds
use cursor_cli_byok.Base.{
  ℕ, zero, suc, ◌+◌, ◌-◌, ◌*◌, Bool, true, false, not, ◌&&◌, ◌||◌, Option, none, some, List, [],
  ◌∷◌, ◌++◌, Bytes, Result, ok, err, new, ◌>>=◌, leb, ltb, ◌==◌, length, take, if◌then◌else◌,
}
use cursor_cli_byok.Go.Strings.{is_empty, text, trim_space}
use cursor_cli_byok.Go.Decimal.{decimal}
use cursor_cli_byok.Go.Words.{join_with}
use cursor_cli_byok.Go.Utf8.{to_valid_utf8}
use cursor_cli_byok.Wire.Protowire.{Protowire}
use cursor_cli_byok.Wire.Encode.{append_string, append_message}
use cursor_cli_byok.Wire.Fields.{
  WireField, decode_wire_fields, last_bytes_field, last_varint_field, repeated_bytes_field,
  or_empty, or_zero,
}
use cursor_cli_byok.Protocol.Text.{fallback_string, valid_utf8}
use cursor_cli_byok.Protocol.Schema.{
  malformed, object, max_proto_json_depth, decode_proto_struct, decode_proto_value,
}
use cursor_cli_byok.Protocol.Client.{required}
use cursor_cli_byok.Tools.Json.{ToolJson}
use cursor_cli_byok.Tools.Requests.{first_failure}

abbrev pub max_mcp_result_items : ℕ
max_mcp_result_items = 64

abbrev pub max_mcp_result_bytes : ℕ
max_mcp_result_bytes = 262144

-- `for !utf8.ValidString(value) && len(value) > 0`, on a value of at most `n` bytes.
unfoldable pub trim_invalid : ℕ → Bytes → Bytes
trim_invalid zero value = []
trim_invalid (suc n) value =
    let shorter = trim_invalid n (take n value) in if valid_utf8 value then value else shorter

-- `boundedMCPSection`
unfoldable pub bounded_mcp_section : Bytes → ℕ → Bytes × Bool
bounded_mcp_section value limit =
    let value = to_valid_utf8 valid_utf8 value in
    if limit == 0
    then ([], not (is_empty value))
    else if leb (length value) limit
    then (value, false)
    else (trim_invalid limit (take limit value), true)

-- A failure: what it says by itself, and the field of its detail, zero for none.
pub record McpFailure : Type 0 where
  pub prefix : Bytes
  pub detail_field : ℕ

abbrev mcp_failures : List (ℕ × McpFailure)
mcp_failures =
    (2, record { prefix = text "MCP error"; detail_field = 1 })
    ∷ (3, record { prefix = text "MCP rejected"; detail_field = 1 })
    ∷ (4, record { prefix = text "MCP permission denied"; detail_field = 1 })
    ∷ (5, record { prefix = text "MCP tool not found"; detail_field = 1 })
    ∷ (6, record { prefix = text "MCP server not found"; detail_field = 1 })
    ∷ (7, record { prefix = text "MCP tool was approved but not executed"; detail_field = 0 })
    ∷ []

-- `sections`, `totalBytes` and `truncated`
pub record Sections : Type 0 where
  pub sections : List Bytes
  pub total_bytes : ℕ
  pub truncated : Bool

-- A section behind those that are there.
unfoldable pub add_section : Bytes → Sections → Sections
add_section value s =
    let bounded = bounded_mcp_section value (max_mcp_result_bytes - s.total_bytes) in
    record {
      sections = if is_empty bounded.0 then s.sections else s.sections ++ bounded.0 ∷ [];
      total_bytes = s.total_bytes + length bounded.0;
      truncated = s.truncated || bounded.1;
    }

abbrev pub truncation_notice : Bytes
truncation_notice = text "[MCP result truncated by cursor-cli-byok]"

-- The last lines of `summarizeMCPSuccess`
unfoldable pub joined_sections : Sections → Bytes
joined_sections s =
    let sections = s.sections ++ (if s.truncated then truncation_notice ∷ [] else []) in
    join_with (10 ∷ 10 ∷ []) (elim sections [
      | [] ↦ text "MCP tool completed without content" ∷ []
      | first ∷ rest ↦ first ∷ rest
    ])

module _ ⦃w : Protowire⦄ where
  -- The section of a content item.
  unfoldable pub item_section : List WireField → Result Bytes
  item_section fields = elim (last_bytes_field fields 1) [
    | some payload ↦
        malformed (new "decode tool result: malformed MCP text content")
          (decode_wire_fields payload)
        >>= λ text_fields. ok (or_empty (last_bytes_field text_fields 1))
    | none ↦ elim (last_bytes_field fields 2) [
      | none ↦ ok []
      | some payload ↦
          malformed (new "decode tool result: malformed MCP image content")
            (decode_wire_fields payload)
          >>= λ image_fields.
              let image = or_empty (last_bytes_field image_fields 1) in
              let mime_type = or_empty (last_bytes_field image_fields 2) in
              ok (
                text "[image: "
                ++ (fallback_string mime_type (text "application/octet-stream")
                    ++ (text ", " ++ (decimal (length image) ++ text " bytes]"))))
    ]
  ]

  -- The loop over the items, which ends early when the bytes are spent.
  unfoldable pub add_items : List Bytes → Sections → Result Sections
  add_items [] s = ok s
  add_items (payload ∷ payloads) s =
      malformed (new "decode tool result: malformed MCP content item") (decode_wire_fields payload)
      >>= λ fields. item_section fields >>= λ value.
          let s' = add_section value s in
          elim (leb max_mcp_result_bytes s'.total_bytes) [
            | true ↦ ok (record s' { truncated = true })
            | false ↦ add_items payloads s'
          ]

  module _ ⦃j : ToolJson⦄ where
    -- The block on the structured content.
    unfoldable pub add_structured : Option Bytes → Sections → Result Sections
    add_structured none s = ok s
    add_structured (some payload) s = elim (ltb s.total_bytes max_mcp_result_bytes) [
      | false ↦ ok s
      | true ↦
          decode_proto_struct (decode_proto_value (max_proto_json_depth + 1)) payload 0 >>= λ r.
          required (new "decode tool result: encode MCP structured content")
            (j.marshal_value (object r.0))
          >>= λ encoded. ok (add_section encoded s)
    ]

    -- `summarizeMCPSuccess`: the content, and whether it is an error.
    unfoldable pub summarize_mcp_success : Bytes → Result (Bytes × Bool)
    summarize_mcp_success payload = do
      fields ←
          malformed (new "decode tool result: malformed MCP success") (decode_wire_fields payload)
      let items = repeated_bytes_field fields 1
      s ← add_items (take max_mcp_result_items items) (record {
        sections = [];
        total_bytes = 0;
        truncated = ltb max_mcp_result_items (length items);
      })
      s ← add_structured (last_bytes_field fields 3) s
      ok (joined_sections s, not (or_zero (last_varint_field fields 2) == 0))

    -- The detail of a failure behind its prefix.
    mcp_detail : McpFailure → List WireField → Bytes
    mcp_detail failure fields =
        let detail = trim_space (or_empty (last_bytes_field fields failure.detail_field)) in
        if is_empty detail then failure.prefix else failure.prefix ++ (text ": " ++ detail)

    unfoldable pub summarize_mcp_failure : McpFailure × Bytes → Result (Bytes × Bool)
    unfolding mcp_detail
    summarize_mcp_failure (failure, payload) = elim failure.detail_field [
      | zero ↦ ok (failure.prefix, true)
      | suc n ↦
          malformed (new "decode tool result: malformed MCP failure") (decode_wire_fields payload)
          >>= λ fields. ok (mcp_detail failure fields, true)
    ]

    unfoldable pub summarize_mcp_result : Bytes → Result (Bytes × Bool)
    summarize_mcp_result payload = do
      fields ←
          malformed (new "decode tool result: malformed MCP result") (decode_wire_fields payload)
      elim (last_bytes_field fields 1) [
        | some success ↦ summarize_mcp_success success
        | none ↦ do
          found ←
              required (new "decode tool result: MCP result variant is unsupported")
                (first_failure fields mcp_failures)
          summarize_mcp_failure found
      ]

    -- The error of `convertMCPResultForDisplay`
    unfoldable pub convert_mcp_error : Bytes → Result Bytes
    convert_mcp_error failure = do
      fields ←
          malformed (new "encode tool completed: malformed MCP error") (decode_wire_fields failure)
      let detail = fallback_string (or_empty (last_bytes_field fields 1)) (text "MCP error")
      ok (append_message [] 2 (append_string [] 1 detail))

    unfoldable pub convert_mcp_result_for_display : Bytes → Result Bytes
    convert_mcp_result_for_display payload = do
      fields ←
          malformed (new "encode tool completed: malformed MCP result") (decode_wire_fields payload)
      elim (last_bytes_field fields 1) [
        | some success ↦ ok (append_message [] 1 success)
        | none ↦ elim (last_bytes_field fields 2) [
          | some failure ↦ convert_mcp_error failure
          | none ↦ elim (last_bytes_field fields 3) [
            | some rejected ↦ ok (append_message [] 3 rejected)
            | none ↦ elim (last_bytes_field fields 4) [
              | some denied ↦ ok (append_message [] 4 denied)
              | none ↦ summarize_mcp_result payload >>= λ r.
                  ok (append_message [] 2 (append_string [] 1 r.0))
            ]
          ]
        ]
      ]
