-- ===== src/Tools/Values.antt =====
-- `encodeProtoValue` and `encodeProtoStruct` of internal/protocol/tool_mcp.go: a JSON value as a
-- `google.protobuf.Value`.
pub mod Read
pub mod RoundTrip
use cursor_cli_byok.Base.{
  ℕ, zero, suc, ◌+◌, Bool, true, not, ◌&&◌, [], ◌++◌, Bytes, Result, ok, err, new, ◌>>=◌, ◌>>◌,
  refuse_if, ltb, if◌then◌else◌,
}
use cursor_cli_byok.Go.Words.{precedes}
use cursor_cli_byok.Wire.Protowire.{Protowire, fixed64_type}
use cursor_cli_byok.Wire.Encode.{append_string, append_message, append_varint}
use cursor_cli_byok.Protocol.Text.{valid_utf8}
use cursor_cli_byok.Protocol.Schema.{
  JsonValue, null, number, string, boolean, object, array, JsonEntries, no_entries, entry,
  JsonItems, no_items, item, max_proto_json_nodes, is_not_finite,
}

-- `sort.Strings` on the keys of an object, which differ.
insert_entry : Bytes → JsonValue → JsonEntries → JsonEntries
insert_entry key value no_entries = entry key value no_entries
insert_entry key value (entry key' value' rest) =
    let behind = insert_entry key value rest in
    if precedes key' key then entry key' value' behind else entry key value (entry key' value' rest)

unfoldable pub sort_entries : JsonEntries → JsonEntries
unfolding insert_entry
sort_entries no_entries = no_entries
sort_entries (entry key value rest) = insert_entry key value (sort_entries rest)

unfoldable pub valid_keys : JsonEntries → Bool
valid_keys no_entries = true
valid_keys (entry key value rest) = valid_utf8 key && valid_keys rest

-- `encodeProtoValue` on what is left of the depth, with `budget.nodes` before and after.
abbrev pub Encoder : Type 0
Encoder = JsonValue → ℕ → Result (Bytes × ℕ)

module _ ⦃w : Protowire⦄ where
  -- The loops over the keys, which append each entry to the payload under a field.
  unfoldable pub encode_entries : Encoder → ℕ → JsonEntries → Bytes → ℕ → Result (Bytes × ℕ)
  encode_entries encode field no_entries payload nodes = ok (payload, nodes)
  encode_entries encode field (entry key value rest) payload nodes = do
    (encoded, nodes') ← encode value nodes
    let written = append_message (append_string [] 1 key) 2 encoded
    encode_entries encode field rest (append_message payload field written) nodes'

  unfoldable pub encode_items : Encoder → JsonItems → Bytes → ℕ → Result (Bytes × ℕ)
  encode_items encode no_items list nodes = ok (list, nodes)
  encode_items encode (item value rest) list nodes = do
    (encoded, nodes') ← encode value nodes
    encode_items encode rest (append_message list 1 encoded) nodes'

  -- `encodeProtoStruct` with an encoder for its depth.
  unfoldable pub encode_proto_struct : Encoder → JsonEntries → ℕ → Result (Bytes × ℕ)
  encode_proto_struct encode entries nodes = do
    refuse_if (not (valid_keys entries)) (new "encode MCP tool: argument key is invalid")
    encode_entries encode 1 (sort_entries entries) [] nodes

  -- The `switch` on the type of the value, with an encoder for the next depth.
  unfoldable pub encode_kind : Encoder → Encoder
  encode_kind encode null nodes = ok (append_varint [] 1 0, nodes)
  encode_kind encode (boolean b) nodes = ok (append_varint [] 4 (if b then 1 else 0), nodes)
  encode_kind encode (string s) nodes = do
    refuse_if (not (valid_utf8 s)) (new "encode MCP tool: argument string is invalid")
    ok (append_string [] 3 s, nodes)
  encode_kind encode (number bits) nodes = do
    refuse_if (is_not_finite bits) (new "encode MCP tool: argument number is invalid")
    ok (w.append_tag 2 fixed64_type ++ w.append_fixed64 bits, nodes)
  encode_kind encode (array items) nodes = do
    (list, nodes') ← encode_items encode items [] nodes
    ok (append_message [] 6 list, nodes')
  encode_kind encode (object entries) nodes = do
    (structure, nodes') ← encode_proto_struct encode entries nodes
    ok (append_message [] 5 structure, nodes')

  -- `encodeProtoValue`, with how many depths are left: `65 - depth`.
  unfoldable pub encode_proto_value : ℕ → Encoder
  encode_proto_value zero value nodes = err (new "encode MCP tool: arguments exceed nesting limit")
  encode_proto_value (suc left) value nodes = do
    refuse_if (ltb max_proto_json_nodes (nodes + 1))
        (new "encode MCP tool: arguments exceed node limit")
    encode_kind (encode_proto_value left) value (nodes + 1)
