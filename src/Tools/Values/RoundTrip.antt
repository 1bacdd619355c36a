-- ===== src/Tools/Values/RoundTrip.antt =====
-- `encodeProtoValue` of internal/protocol/tool_mcp.go and `decodeProtoValue` of
-- internal/protocol/mcp.go.
use cursor_cli_byok.Base.{
  ℕ, zero, suc, ◌+◌, ◌≤◌, ◌<◌, ◌^◌, ◌≡◌, refl, sym, ◌∙◌, subst, Bool, true, false, not, ◌&&◌, List,
  [], ◌∷◌, ◌++◌, append-nil, append_assoc, Bytes, Result, ok, bind-eq-ok, ok_eq, All, length-append,
  ltb, arith, if◌then◌else◌,
}
use cursor_cli_byok.Provider.{contains}
use cursor_cli_byok.Wire.Protowire.{Protowire, fixed64_type}
use cursor_cli_byok.Wire.Encode.{append_string, append_message, append_varint}
use cursor_cli_byok.Wire.Fields.{last_bytes_field, last_field}
use cursor_cli_byok.Wire.RoundTrip.{
  Part, bytes_part, varint_part, fixed64_part, field_of, write, write_part, write_nil,
  append_string-write, append_message-write, append_varint-write, decode_wire_fields-write,
}
use cursor_cli_byok.Protocol.Text.{valid_utf8}
use cursor_cli_byok.Protocol.Schema.{
  JsonValue, null, number, string, boolean, object, array, JsonEntries, no_entries, entry,
  JsonItems, no_items, item, max_proto_json_nodes, is_not_finite, Decoder, decode_proto_value,
  decode_entries, decode_items, decode_kinds,
}
use cursor_cli_byok.Protocol.Schema.Counted.{past, passed}
use cursor_cli_byok.Tools.Values.{
  Encoder, sort_entries, valid_keys, encode_entries, encode_items, encode_proto_struct, encode_kind,
  encode_proto_value,
}
use cursor_cli_byok.Tools.Values.Read.{
  IsShort, bytes_part-length, under, under-IsShort, decode_items-read, decode_entries-read,
  decode_one, null_read, boolean_read, string_read, number_read, object_read, array_read,
}

-- A value as a map of Go prints it: the keys of each object differ and are sorted, and a number has
-- 64 bits.
abbrev mutual
  pub IsCanonical : JsonValue → Type 0
  IsCanonical (object entries) = (sort_entries entries ≡ entries) × AreCanonical [] entries
  IsCanonical (array items) = AllCanonical items
  IsCanonical (number bits) = bits < 2 ^ 64
  IsCanonical null = Unit
  IsCanonical (string s) = Unit
  IsCanonical (boolean b) = Unit

  AreCanonical : List Bytes → JsonEntries → Type 0
  AreCanonical seen no_entries = Unit
  AreCanonical seen (entry key value rest) =
      (contains key seen ≡ false) × IsCanonical value × AreCanonical (key ∷ seen) rest

  AllCanonical : JsonItems → Type 0
  AllCanonical no_items = Unit
  AllCanonical (item value rest) = IsCanonical value × AllCanonical rest

module _ ⦃w : Protowire⦄ where
  -- What is encoded by the one is decoded by the other.
  abbrev ReadsBack : Encoder → Decoder → Type 0
  ReadsBack encode decode =
      (value : JsonValue) (n : ℕ) (payload : Bytes) (n' : ℕ)
      → IsCanonical value
      → encode value n ≡ ok (payload, n')
      → IsShort payload
      → decode payload n ≡ ok (value, n')

  entry_bytes : Bytes → Bytes → Bytes
  entry_bytes key encoded = write (bytes_part 1 key ∷ bytes_part 2 encoded ∷ [])

  append_entry :
      (key encoded : Bytes)
      → append_message (append_string [] 1 key) 2 encoded ≡ entry_bytes key encoded
  unfolding entry_bytes
  append_entry key encoded =
      rw (← write_nil)
        (rw (append_string-write [] 1 key) (append_message-write (bytes_part 1 key ∷ []) 2 encoded))

  -- The messages that the loop over the items appended, and how they are read.
  encode_items-read :
      (encode : Encoder) (decode : Decoder) (items : JsonItems) (ps : List Part) (n : ℕ)
      {payload : Bytes} {n' : ℕ}
      → ReadsBack encode decode
      → AllCanonical items
      → encode_items encode items (write ps) n ≡ ok (payload, n')
      → (messages : List Bytes) × (payload ≡ write (ps ++ under 1 messages))
        × (All IsShort messages → decode_items decode messages n ≡ ok (items, n'))
  unfolding encode_items decode_items
  encode_items-read encode decode no_items ps n back fine e =
      ([], rw (append-nil ps) cc, λ short. cc)
  encode_items-read encode decode (item value rest) ps n back (fine, fines) e =
      let ((encoded, n1), first, e1) = bind-eq-ok (encode value n) _ e in
      let e2 = rw (append_message-write ps 1 encoded) at e1 in
      let (messages, written, behind) =
        encode_items-read encode decode rest (ps ++ bytes_part 1 encoded ∷ []) n1 back fines e2 in
      (
        encoded ∷ messages,
        rw written (rw (append_assoc ps (bytes_part 1 encoded ∷ []) (under 1 messages)) refl),
        λ short. rw (back value n encoded n1 fine first short.0) (rw (behind short.1) refl),
      )

  entry-IsShort :
      (key encoded : Bytes) → IsShort (entry_bytes key encoded) → IsShort key × IsShort encoded
  unfolding entry_bytes write
  entry-IsShort key encoded h =
      let behind = write_part (bytes_part 2 encoded) ++ [] in
      let sum = length-append (write_part (bytes_part 1 key)) behind in
      let sum' = length-append (write_part (bytes_part 2 encoded)) [] in
      (
        omega (arith, bytes_part-length 1 key, sum),
        omega (arith, bytes_part-length 2 encoded, sum, sum'),
      )

  -- An entry is read as its key and its value.
  read_entry :
      (decode : Decoder) (seen : List Bytes) (key encoded : Bytes) (value : JsonValue)
      (messages : List Bytes) (rest : JsonEntries) (n n1 n2 : ℕ)
      → IsShort (entry_bytes key encoded)
      → valid_utf8 key ≡ true
      → contains key seen ≡ false
      → decode encoded n ≡ ok (value, n1)
      → decode_entries decode (key ∷ seen) messages n1 ≡ ok (rest, n2)
      → decode_entries decode seen (entry_bytes key encoded ∷ messages) n
        ≡ ok (entry key value rest, n2)
  unfolding decode_entries entry_bytes last_bytes_field last_field
  read_entry decode seen key encoded value messages rest n n1 n2 short valid fresh first behind =
      let (short_key, short_value) = entry-IsShort key encoded short in
      rw
        (decode_wire_fields-write (bytes_part 1 key ∷ bytes_part 2 encoded ∷ [])
          ((omega arith, omega arith, short_key), ((omega arith, omega arith, short_value), tt)))
        (rw valid (rw fresh (rw first (rw behind refl))))

  both_valid : (a b : Bool) → a && b ≡ true → (a ≡ true) × (b ≡ true)
  both_valid true b h = (refl, h)
  both_valid false b h = absurd (cc h)

  -- The same for the loop over the keys.
  encode_entries-read :
      (encode : Encoder) (decode : Decoder) (seen : List Bytes) (entries : JsonEntries)
      (ps : List Part) (n : ℕ) {payload : Bytes} {n' : ℕ}
      → ReadsBack encode decode
      → AreCanonical seen entries
      → valid_keys entries ≡ true
      → encode_entries encode 1 entries (write ps) n ≡ ok (payload, n')
      → (messages : List Bytes) × (payload ≡ write (ps ++ under 1 messages))
        × (All IsShort messages → decode_entries decode seen messages n ≡ ok (entries, n'))
  unfolding encode_entries valid_keys
  encode_entries-read encode decode seen no_entries ps n back fine valid e =
      ([], rw (append-nil ps) cc, λ short. unfold decode_entries in cc)
  encode_entries-read encode decode seen (entry key value rest) ps n {n' = n'} back
        (fresh, fine, fines) valid e =
      let (valid_key, valid_rest) = both_valid (valid_utf8 key) (valid_keys rest) valid in
      let ((encoded, n1), first, e1) = bind-eq-ok (encode value n) _ e in
      let e2 = rw (append_entry key encoded) at e1 in
      let message = entry_bytes key encoded in
      let e3 = rw (append_message-write ps 1 message) at e2 in
      let (messages, written, behind) =
        encode_entries-read encode decode (key ∷ seen) rest (ps ++ bytes_part 1 message ∷ []) n1
          back fines valid_rest e3 in
      (
        message ∷ messages,
        rw written (rw (append_assoc ps (bytes_part 1 message ∷ []) (under 1 messages)) refl),
        λ short.
            read_entry decode seen key encoded value messages rest n n1 n' short.0 valid_key fresh
              (back value n encoded n1 fine first (entry-IsShort key encoded short.0).1)
              (behind short.1),
      )

  -- A part is short where the message of it alone is.
  alone-IsShort : (field : ℕ) (b : Bytes) → IsShort (write (bytes_part field b ∷ [])) → IsShort b
  unfolding write
  alone-IsShort field b h =
      omega (arith, bytes_part-length field b, length-append (write_part (bytes_part field b)) [])

  alone :
      (field : ℕ) (b : Bytes)
      → (append_message [] field b ≡ write (bytes_part field b ∷ []))
        × (append_string [] field b ≡ write (bytes_part field b ∷ []))
  alone field b = (
    rw (← write_nil) (append_message-write [] field b),
    rw (← write_nil) (append_string-write [] field b),
  )

  alone_varint : (field v : ℕ) → append_varint [] field v ≡ write (varint_part field v ∷ [])
  alone_varint field v = rw (← write_nil) (append_varint-write [] field v)

  alone_fixed64 :
      (bits : ℕ)
      → w.append_tag 2 fixed64_type ++ w.append_fixed64 bits ≡ write (fixed64_part 2 bits ∷ [])
  unfolding write write_part
  alone_fixed64 bits = sym (append-nil (w.append_tag 2 fixed64_type ++ w.append_fixed64 bits))

  not-false : (b : Bool) → not b ≡ false → b ≡ true
  not-false true h = refl
  not-false false h = absurd (cc h)

  -- A message under one field, which a block reads.
  message_read :
      (left n field : ℕ) (body : Bytes) (value : JsonValue) (nodes : ℕ) {payload : Bytes} {n' : ℕ}
      → 1 ≤ field
      → field < 2 ^ 29
      → ltb max_proto_json_nodes (n + 1) ≡ false
      → IsShort payload
      → ◌≡◌ {A = Result (Bytes × ℕ)}
          (ok (write (bytes_part field body ∷ []), nodes))
          (ok (payload, n'))
      → (IsShort body
          → decode_kinds (decode_proto_value left) (field_of (bytes_part field body) ∷ []) (n + 1)
            ≡ ok (record { kinds = 1; value = value; nodes = nodes }))
      → decode_proto_value (suc left) payload n ≡ ok (value, n')
  message_read left n field body value nodes {payload} {n'} lo hi few short e reads =
      let Short = λ (r : Bytes × ℕ). IsShort r.0 in
      let Reads = λ (r : Bytes × ℕ). decode_proto_value (suc left) r.0 n ≡ ok (value, r.1) in
      let short' = alone-IsShort field body (subst Short (sym (ok_eq e)) short) in
      subst Reads (ok_eq e)
        (decode_one left n (bytes_part field body) value nodes (lo, hi, short') few (reads short'))

  -- A value by its kind: what the `switch` writes is read as that value.
  encode_kind-read :
      (left : ℕ) (encode : Encoder) (value : JsonValue) (n : ℕ) {payload : Bytes} {n' : ℕ}
      → ReadsBack encode (decode_proto_value left)
      → ltb max_proto_json_nodes (n + 1) ≡ false
      → IsCanonical value
      → encode_kind encode value (n + 1) ≡ ok (payload, n')
      → IsShort payload
      → decode_proto_value (suc left) payload n ≡ ok (value, n')
  unfolding encode_kind encode_proto_struct
  encode_kind-read left encode null n back few fine e short =
      let Reads = λ (r : Bytes × ℕ). decode_proto_value (suc left) r.0 n ≡ ok (null, r.1) in
      subst Reads (ok_eq e) (
        rw (alone_varint 1 0) (
          decode_one left n (varint_part 1 0) null (n + 1) (omega arith, omega arith, omega arith)
            few (null_read (decode_proto_value left) (n + 1))))
  encode_kind-read left encode (boolean b) n back few fine e short =
      let Reads = λ (r : Bytes × ℕ). decode_proto_value (suc left) r.0 n ≡ ok (boolean b, r.1) in
      let v : ℕ = if b then 1 else 0 in
      subst Reads (ok_eq e) (
        rw (alone_varint 4 v) (
          decode_one left n (varint_part 4 v) (boolean b) (n + 1)
            (omega arith, omega arith, ground arith) few
            (boolean_read (decode_proto_value left) (n + 1) b)))
  encode_kind-read left encode (string s) n {payload} back few fine e short =
      let bad = not (valid_utf8 s) in
      let e1 = rw (alone 3 s).1 at (past bad _ e) in
      message_read left n 3 s (string s) (n + 1) (omega arith) (omega arith) few short e1
        (λ short_text. string_read (decode_proto_value left) (n + 1) s (passed bad _ _ e))
  encode_kind-read left encode (number bits) n back few fine e short =
      let Reads = λ (r : Bytes × ℕ). decode_proto_value (suc left) r.0 n ≡ ok (number bits, r.1) in
      subst Reads (ok_eq (past (is_not_finite bits) _ e)) (
        rw (alone_fixed64 bits) (
          decode_one left n (fixed64_part 2 bits) (number bits) (n + 1)
            (omega arith, omega arith, fine) few
            (number_read (decode_proto_value left) (n + 1) bits
              (passed (is_not_finite bits) _ _ e))))
  encode_kind-read left encode (array items) n {payload} {n'} back few fine e short =
      let ((list, n1), looped, e1) = bind-eq-ok (encode_items encode items [] (n + 1)) _ e in
      let looped' = rw (← write_nil) at looped in
      let (messages, written, read) =
        encode_items-read encode (decode_proto_value left) items [] (n + 1) back fine looped' in
      let e2 = rw (alone 6 list).0 at e1 in
      message_read left n 6 list (array items) n1 (omega arith) (omega arith) few short e2
        (λ short_list. array_read (decode_proto_value left) (n + 1) list items n1 (
          rw written (
            decode_items-read (decode_proto_value left) messages (n + 1)
              (subst IsShort written short_list)
            ∙ read (under-IsShort 1 messages (subst IsShort written short_list)))))
  encode_kind-read left encode (object members) n {payload} {n'} back few (sorted, fine) e short =
      let (written', counted, e1) = bind-eq-ok (encode_proto_struct encode members (n + 1)) _ e in
      let bad = not (valid_keys members) in
      let valid = not-false _ (passed bad _ _ counted) in
      let looped = rw (sorted, ← write_nil) at (past bad _ counted) in
      let (messages, written, read) =
        encode_entries-read encode (decode_proto_value left) [] members [] (n + 1) back fine valid
          looped in
      let e2 = rw (alone 5 written'.0).0 at e1 in
      message_read left n 5 written'.0 (object members) written'.1 (omega arith) (omega arith) few
        short e2
        (λ short_body. object_read (decode_proto_value left) (n + 1) written'.0 members written'.1 (
          rw written (
            decode_entries-read (decode_proto_value left) messages (n + 1)
              (subst IsShort written short_body)
            ∙ read (under-IsShort 1 messages (subst IsShort written short_body)))))

  -- A value whose objects have different keys, in their order, and whose numbers have 64 bits: what
  -- is encoded of it is decoded as the same value, with as many nodes counted, if it is shorter than
  -- 2^64 bytes. Depth and nodes are limited alike on both sides.
  pub decode_proto_value-encode :
      (left : ℕ) (value : JsonValue) (n : ℕ) (payload : Bytes) (n' : ℕ)
      → IsCanonical value
      → encode_proto_value left value n ≡ ok (payload, n')
      → IsShort payload
      → decode_proto_value left payload n ≡ ok (value, n')
  unfolding encode_proto_value
  decode_proto_value-encode zero value n payload n' fine e short = absurd (cc e)
  decode_proto_value-encode (suc left) value n payload n' fine e short =
      let many = ltb max_proto_json_nodes (n + 1) in
      encode_kind-read left (encode_proto_value left) value n (decode_proto_value-encode left)
        (passed many _ _ e) fine (past many _ e) short
