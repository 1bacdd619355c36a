-- ===== src/Tools/Values/Read.antt =====
-- `decodeProtoValue` of internal/protocol/mcp.go on the messages that internal/protocol/tool_mcp.go
-- writes.
use cursor_cli_byok.Base.{
  ℕ, suc, ◌+◌, ◌≤◌, ◌<◌, ◌^◌, ◌≡◌, refl, Bool, true, false, not, List, [], ◌∷◌, map, Bytes, ok, All,
  length, length-append, ltb, arith, if◌then◌else◌,
}
use cursor_cli_byok.Wire.Protowire.{Protowire, bytes_type}
use cursor_cli_byok.Wire.Fields.{
  last_field, last_bytes_field, last_varint_field, last_fixed64_field, repeated_bytes_field,
}
use cursor_cli_byok.Wire.RoundTrip.{
  Part, bytes_part, varint_part, fixed64_part, IsWritable, field_of, write, write_part,
  decode_wire_fields-write,
}
use cursor_cli_byok.Protocol.Text.{valid_utf8}
use cursor_cli_byok.Protocol.Schema.{
  JsonValue, null, number, string, boolean, object, array, JsonEntries, JsonItems,
  max_proto_json_nodes, is_not_finite, Decoder, decode_kinds, decode_proto_value,
  decode_proto_struct, decode_proto_list, decode_entries, decode_items, struct_kind, list_kind,
}

-- A byte string whose length is a varint of 64 bits.
abbrev pub IsShort : Bytes → Type 0
IsShort b = length b < 2 ^ 64

abbrev pub under : ℕ → List Bytes → List Part
under field messages = map (bytes_part field) messages

pub repeated_bytes_field-under :
    (field : ℕ) (messages : List Bytes)
    → repeated_bytes_field (map field_of (under field messages)) field ≡ messages
unfolding repeated_bytes_field
repeated_bytes_field-under field [] = refl
repeated_bytes_field-under field (m ∷ messages) =
    ground (arith, repeated_bytes_field-under field messages)

pub under-IsWritable :
    (field : ℕ) (messages : List Bytes)
    → 1 ≤ field
    → field < 2 ^ 29
    → All IsShort messages
    → All IsWritable (under field messages)
under-IsWritable field [] lo hi h = tt
under-IsWritable field (m ∷ messages) lo hi (h, hs) =
    ((lo, hi, h), under-IsWritable field messages lo hi hs)

module _ ⦃w : Protowire⦄ where
  pub bytes_part-length :
      (field : ℕ) (b : Bytes) → length b ≤ length (write_part (bytes_part field b))
  unfolding write_part
  bytes_part-length field b = omega (
    arith,
    w.append_bytes-length b,
    length-append (w.append_tag field bytes_type) (w.append_bytes b),
  )

  -- What a short message holds is short.
  pub under-IsShort :
      (field : ℕ) (messages : List Bytes)
      → IsShort (write (under field messages))
      → All IsShort messages
  unfolding write
  under-IsShort field [] h = tt
  under-IsShort field (m ∷ messages) h =
      let sum = length-append (write_part (bytes_part field m)) (write (under field messages)) in
      (
        omega (arith, bytes_part-length field m, sum),
        under-IsShort field messages (omega (arith, sum)),
      )

  pub decode_items-read :
      (decode : Decoder) (messages : List Bytes) (n : ℕ)
      → IsShort (write (under 1 messages))
      → decode_proto_list decode (write (under 1 messages)) n ≡ decode_items decode messages n
  unfolding decode_proto_list
  decode_items-read decode messages n h =
      let writable =
        under-IsWritable 1 messages (omega arith) (omega arith) (under-IsShort 1 messages h) in
      rw (decode_wire_fields-write (under 1 messages) writable)
        (rw (repeated_bytes_field-under 1 messages) refl)

  pub decode_entries-read :
      (decode : Decoder) (messages : List Bytes) (n : ℕ)
      → IsShort (write (under 1 messages))
      → decode_proto_struct decode (write (under 1 messages)) n
        ≡ decode_entries decode [] messages n
  unfolding decode_proto_struct
  decode_entries-read decode messages n h =
      let writable =
        under-IsWritable 1 messages (omega arith) (omega arith) (under-IsShort 1 messages h) in
      rw (decode_wire_fields-write (under 1 messages) writable)
        (rw (repeated_bytes_field-under 1 messages) refl)

  -- A value of one field.
  pub decode_one :
      (left n : ℕ) (p : Part) (value : JsonValue) (nodes : ℕ)
      → IsWritable p
      → ltb max_proto_json_nodes (n + 1) ≡ false
      → decode_kinds (decode_proto_value left) (field_of p ∷ []) (n + 1)
        ≡ ok (record { kinds = 1; value = value; nodes = nodes })
      → decode_proto_value (suc left) (write (p ∷ [])) n ≡ ok (value, nodes)
  unfolding decode_proto_value
  decode_one left n p value nodes h few e =
      rw few (rw (decode_wire_fields-write (p ∷ []) (h, tt)) (rw e refl))

  module _ (decode : Decoder) (n : ℕ) where
    pub null_read :
        decode_kinds decode (field_of (varint_part 1 0) ∷ []) n
        ≡ ok (record { kinds = 1; value = null; nodes = n })
    unfolding decode_kinds last_field last_bytes_field last_varint_field last_fixed64_field
        struct_kind list_kind
    null_read = refl

    pub boolean_read :
        (b : Bool)
        → decode_kinds decode (field_of (varint_part 4 (if b then 1 else 0)) ∷ []) n
          ≡ ok (record { kinds = 1; value = boolean b; nodes = n })
    unfolding decode_kinds last_field last_bytes_field last_varint_field last_fixed64_field
        struct_kind list_kind
    boolean_read true = refl
    boolean_read false = refl

    pub string_read :
        (s : Bytes)
        → not (valid_utf8 s) ≡ false
        → decode_kinds decode (field_of (bytes_part 3 s) ∷ []) n
          ≡ ok (record { kinds = 1; value = string s; nodes = n })
    unfolding decode_kinds last_field last_bytes_field last_varint_field last_fixed64_field
        struct_kind list_kind
    string_read s valid = rw valid refl

    pub number_read :
        (bits : ℕ)
        → is_not_finite bits ≡ false
        → decode_kinds decode (field_of (fixed64_part 2 bits) ∷ []) n
          ≡ ok (record { kinds = 1; value = number bits; nodes = n })
    unfolding decode_kinds last_field last_bytes_field last_varint_field last_fixed64_field
        struct_kind list_kind
    number_read bits finite = rw finite refl

    pub object_read :
        (structure : Bytes) (members : JsonEntries) (nodes : ℕ)
        → decode_proto_struct decode structure n ≡ ok (members, nodes)
        → decode_kinds decode (field_of (bytes_part 5 structure) ∷ []) n
          ≡ ok (record { kinds = 1; value = object members; nodes = nodes })
    unfolding decode_kinds last_field last_bytes_field last_varint_field last_fixed64_field
        struct_kind list_kind
    object_read structure members nodes e = rw e refl

    pub array_read :
        (list : Bytes) (items : JsonItems) (nodes : ℕ)
        → decode_proto_list decode list n ≡ ok (items, nodes)
        → decode_kinds decode (field_of (bytes_part 6 list) ∷ []) n
          ≡ ok (record { kinds = 1; value = array items; nodes = nodes })
    unfolding decode_kinds last_field last_bytes_field last_varint_field last_fixed64_field
        struct_kind list_kind
    array_read list items nodes e = rw e refl
