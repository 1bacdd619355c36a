-- ===== src/Protocol/Schema.antt =====
-- The schemas of MCP tools in internal/protocol/mcp.go: a `google.protobuf.Value` as a value of
-- JSON, with its limits on nesting and on the number of values.
pub mod Counted
pub mod Blocks
pub mod Bounds
use cursor_cli_byok.Base.{
  ℕ, zero, suc, ◌+◌, ◌/◌, ◌%◌, ◌^◌, Bool, true, false, not, ◌||◌, Option, none, some, List, [], ◌∷◌,
  Bytes, Result, ok, err, Error, new, ◌>>=◌, ◌>>◌, refuse_if, map_err, ltb, ◌==◌, if◌then◌else◌,
}
use cursor_cli_byok.Provider.{contains}
use cursor_cli_byok.Wire.Protowire.{Protowire}
use cursor_cli_byok.Wire.Fields.{
  WireField, decode_wire_fields, last_bytes_field, last_varint_field, last_fixed64_field,
  repeated_bytes_field, or_empty,
}
use cursor_cli_byok.Protocol.Text.{valid_utf8}

-- The `any` that `decodeProtoValue` makes: a number by its 64 bits, an object by its entries in
-- the order of the message, where the keys differ.
mutual
  pub data JsonValue : Type 0 where
    null : JsonValue
    number : ℕ → JsonValue
    string : Bytes → JsonValue
    boolean : Bool → JsonValue
    object : JsonEntries → JsonValue
    array : JsonItems → JsonValue

  pub data JsonEntries : Type 0 where
    no_entries : JsonEntries
    entry : Bytes → JsonValue → JsonEntries → JsonEntries

  pub data JsonItems : Type 0 where
    no_items : JsonItems
    item : JsonValue → JsonItems → JsonItems

abbrev pub max_proto_json_depth : ℕ
max_proto_json_depth = 64

abbrev pub max_proto_json_nodes : ℕ
max_proto_json_nodes = 10000

-- `math.IsNaN(number) || math.IsInf(number, 0)` on the bits: the exponent is all ones.
abbrev pub is_not_finite : ℕ → Bool
is_not_finite bits = bits / 2 ^ 52 % 2 ^ 11 == 2047

-- `decodeProtoValue` on what is left of the depth, with `budget.nodes` before and after.
abbrev pub Decoder : Type 0
Decoder = Bytes → ℕ → Result (JsonValue × ℕ)

abbrev pub malformed {ℓ} : {A : Type ℓ} → Error → Result A → Result A
malformed e r = map_err (λ cause. e) r

-- `kinds`, `value` and the nodes
pub record Kinds : Type 0 where
  pub kinds : ℕ
  pub value : JsonValue
  pub nodes : ℕ

abbrev pub another : Kinds → JsonValue → Kinds
another k v = record { kinds = k.kinds + 1; value = v; nodes = k.nodes }

-- The blocks of `decodeProtoValue` on one found field each.
abbrev pub null_kind : Option ℕ → Kinds → Result Kinds
null_kind none k = ok k
null_kind (some raw) k =
    if not (raw == 0)
    then err (new "run request MCP schema null value is invalid")
    else ok (another k null)

abbrev pub number_kind : Option ℕ → Kinds → Result Kinds
number_kind none k = ok k
number_kind (some raw) k =
    if is_not_finite raw
    then err (new "run request MCP schema number is invalid")
    else ok (another k (number raw))

abbrev pub string_kind : Option Bytes → Kinds → Result Kinds
string_kind none k = ok k
string_kind (some raw) k =
    if not (valid_utf8 raw)
    then err (new "run request MCP schema string is invalid")
    else ok (another k (string raw))

abbrev pub boolean_kind : Option ℕ → Kinds → Result Kinds
boolean_kind none k = ok k
boolean_kind (some raw) k =
    if ltb 1 raw
    then err (new "run request MCP schema boolean is invalid")
    else ok (another k (boolean (raw == 1)))

abbrev pub is_missing {ℓ} : {A : Type ℓ} → Option A → Bool
is_missing none = true
is_missing (some _) = false

module _ ⦃w : Protowire⦄ where
  -- The loop of `decodeProtoStruct`, with the keys that are there.
  unfoldable pub decode_entries : Decoder → List Bytes → List Bytes → ℕ → Result (JsonEntries × ℕ)
  decode_entries decode seen [] nodes = ok (no_entries, nodes)
  decode_entries decode seen (payload ∷ payloads) nodes = do
    fields ←
        malformed (new "run request MCP schema object entry is malformed")
          (decode_wire_fields payload)
    let key_bytes = last_bytes_field fields 1
    let value_payload = last_bytes_field fields 2
    let key = or_empty key_bytes
    refuse_if (is_missing key_bytes || (is_missing value_payload || not (valid_utf8 key)))
        (new "run request MCP schema object entry is invalid")
    refuse_if (contains key seen) (new "run request MCP schema object has duplicate keys")
    (value, nodes') ← decode (or_empty value_payload) nodes
    (rest, nodes'') ← decode_entries decode (key ∷ seen) payloads nodes'
    ok (entry key value rest, nodes'')

  -- The loop of `decodeProtoList`
  unfoldable pub decode_items : Decoder → List Bytes → ℕ → Result (JsonItems × ℕ)
  decode_items decode [] nodes = ok (no_items, nodes)
  decode_items decode (payload ∷ payloads) nodes = do
    (value, nodes') ← decode payload nodes
    (rest, nodes'') ← decode_items decode payloads nodes'
    ok (item value rest, nodes'')

  -- `decodeProtoStruct` on a decoder for its depth
  unfoldable pub decode_proto_struct : Decoder → Bytes → ℕ → Result (JsonEntries × ℕ)
  decode_proto_struct decode payload nodes = do
    fields ←
        malformed (new "run request MCP schema object is malformed") (decode_wire_fields payload)
    decode_entries decode [] (repeated_bytes_field fields 1) nodes

  -- `decodeProtoList` on a decoder for its depth
  unfoldable pub decode_proto_list : Decoder → Bytes → ℕ → Result (JsonItems × ℕ)
  decode_proto_list decode payload nodes = do
    fields ← malformed (new "run request MCP schema list is malformed") (decode_wire_fields payload)
    decode_items decode (repeated_bytes_field fields 1) nodes

  unfoldable pub struct_kind : Decoder → Option Bytes → Kinds → Result Kinds
  struct_kind decode none k = ok k
  struct_kind decode (some raw) k = do
    (entries, nodes) ← decode_proto_struct decode raw k.nodes
    ok (record (another k (object entries)) { nodes = nodes })

  unfoldable pub list_kind : Decoder → Option Bytes → Kinds → Result Kinds
  list_kind decode none k = ok k
  list_kind decode (some raw) k = do
    (items, nodes) ← decode_proto_list decode raw k.nodes
    ok (record (another k (array items)) { nodes = nodes })

  -- The blocks of `decodeProtoValue`, in their order.
  unfoldable pub decode_kinds : Decoder → List WireField → ℕ → Result Kinds
  decode_kinds decode fields nodes = do
    k ← null_kind (last_varint_field fields 1) (record { kinds = 0; value = null; nodes = nodes })
    k ← number_kind (last_fixed64_field fields 2) k
    k ← string_kind (last_bytes_field fields 3) k
    k ← boolean_kind (last_varint_field fields 4) k
    k ← struct_kind decode (last_bytes_field fields 5) k
    list_kind decode (last_bytes_field fields 6) k

  -- `decodeProtoValue`, with how many depths are left: `65 - depth`.
  unfoldable pub decode_proto_value : ℕ → Decoder
  decode_proto_value zero payload nodes = err (new "run request MCP schema exceeds nesting limit")
  decode_proto_value (suc left) payload nodes = do
    refuse_if (ltb max_proto_json_nodes (nodes + 1))
        (new "run request MCP schema exceeds node limit")
    fields ←
        malformed (new "run request MCP schema value is malformed") (decode_wire_fields payload)
    k ← decode_kinds (decode_proto_value left) fields (nodes + 1)
    refuse_if (not (k.kinds == 1)) (new "run request MCP schema value kind is invalid")
    ok (k.value, k.nodes)

  -- `decodeMCPInputSchema`; the argument is `json.Marshal`, which may fail.
  unfoldable pub decode_mcp_input_schema : (JsonValue → Option Bytes) → Bytes → Result Bytes
  decode_mcp_input_schema marshal payload = do
    (value, nodes) ← decode_proto_value (max_proto_json_depth + 1) payload 0
    encode_object marshal value
    where
      encode_object : (JsonValue → Option Bytes) → JsonValue → Result Bytes
      encode_object marshal (object entries) = elim (marshal (object entries)) [
        | none ↦ err (new "run request MCP tool schema cannot be encoded")
        | some encoded ↦ ok encoded
      ]
      encode_object marshal _ = err (new "run request MCP tool schema must be an object")
