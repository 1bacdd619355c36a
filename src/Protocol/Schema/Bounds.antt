-- ===== src/Protocol/Schema/Bounds.antt =====
-- How deep and how large the values are that `decodeProtoValue` of internal/protocol/mcp.go returns.
use cursor_cli_byok.Base.{
  ℕ, zero, suc, ◌+◌, ◌≤◌, ◌≡◌, subst, not, Bytes, ok, ltb, ◌==◌, arith, bind-eq-ok, ok_eq,
}
use cursor_cli_byok.Wire.Protowire.{Protowire}
use cursor_cli_byok.Wire.Fields.{decode_wire_fields}
use cursor_cli_byok.Protocol.Schema.{
  JsonValue, max_proto_json_nodes, malformed, decode_kinds, decode_proto_value,
}
use cursor_cli_byok.Protocol.Schema.Counted.{size, depth, IsCounted, Counts, past, passed}
use cursor_cli_byok.Protocol.Schema.Blocks.{one_kind-IsCounted, decode_kinds-KindsCounted}

module _ ⦃w : Protowire⦄ where
  decode_proto_value-Counts : (left : ℕ) → Counts left (decode_proto_value left)
  unfolding decode_proto_value
  decode_proto_value-Counts zero payload n r e = absurd (cc e)
  decode_proto_value-Counts (suc left) payload n r e =
      let within = passed (ltb max_proto_json_nodes (n + 1)) _ _ e in
      let (fields, wire, e1) =
        bind-eq-ok (malformed _ (decode_wire_fields payload)) _
          (past (ltb max_proto_json_nodes (n + 1)) _ e) in
      let (k, kinds, e2) =
        bind-eq-ok (decode_kinds (decode_proto_value left) fields (n + 1)) _ e1 in
      let one = passed (not (k.kinds == 1)) _ _ e2 in
      subst (IsCounted (suc left) n) (ok_eq (past (not (k.kinds == 1)) _ e2)) (
        one_kind-IsCounted left n k one (
          decode_kinds-KindsCounted left (decode_proto_value left) (decode_proto_value-Counts left)
            fields (n + 1) (ground (arith, within)) kinds))

  -- Whatever the bytes, a value that is decoded with `left` levels to go has at most `left` levels,
  -- and the count of nodes goes up by the values in it and stays within the limit.
  pub decode_proto_value_bounded :
      (left : ℕ) (payload : Bytes) (n : ℕ) {v : JsonValue} {n' : ℕ}
      → decode_proto_value left payload n ≡ ok (v, n')
      → (n' ≡ n + size v) × (n' ≤ max_proto_json_nodes) × (depth v ≤ left)
  decode_proto_value_bounded left payload n {v} {n'} e =
      decode_proto_value-Counts left payload n (v, n') e
