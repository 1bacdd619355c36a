-- ===== src/Protocol/Schema/Blocks.antt =====
-- The blocks of `decodeProtoValue` in internal/protocol/mcp.go, counted.
use cursor_cli_byok.Base.{
  ℕ, suc, ◌+◌, ◌≤◌, ◌≡◌, refl, subst, Bool, true, false, not, Option, none, some, List, [], Bytes,
  ok, err, Error, ltb, ◌==◌, arith, bind-eq-ok, ok_eq, if◌then◌else◌,
}
use cursor_cli_byok.Wire.Protowire.{Protowire}
use cursor_cli_byok.Wire.Fields.{
  WireField, decode_wire_fields, last_bytes_field, last_varint_field, last_fixed64_field,
  repeated_bytes_field,
}
use cursor_cli_byok.Protocol.Text.{valid_utf8}
use cursor_cli_byok.Protocol.Schema.{
  JsonValue, null, number, string, boolean, object, array, max_proto_json_nodes, is_not_finite,
  Decoder, malformed, Kinds, another, null_kind, number_kind, string_kind, boolean_kind,
  decode_entries, decode_items, decode_proto_struct, decode_proto_list, struct_kind, list_kind,
  decode_kinds,
}
use cursor_cli_byok.Protocol.Schema.Counted.{
  size, size_entries, size_items, depth, depth_entries, depth_items, IsCounted, Counts,
  decode_items-ItemsCounted, decode_entries-EntriesCounted,
}

-- The value of the blocks that were run, `n` being the nodes before them.
pub data KindsCounted (left n : ℕ) (k : Kinds) : Type 0 where
  nothing : k.kinds ≡ 0 → k.nodes ≡ n → n ≤ max_proto_json_nodes → KindsCounted left n k
  single :
      k.kinds ≡ 1
      → k.nodes + 1 ≡ n + size k.value
      → k.nodes ≤ max_proto_json_nodes
      → depth k.value ≤ suc left
      → KindsCounted left n k
  several : 2 ≤ k.kinds → KindsCounted left n k

another-KindsCounted :
    (left n : ℕ) (k : Kinds) (v : JsonValue)
    → size v ≡ 1
    → depth v ≡ 1
    → KindsCounted left n k
    → KindsCounted left n (another k v)
another-KindsCounted left n k v s d (nothing z q f) =
    single (omega (arith, z)) (omega (arith, q, s)) (omega (arith, q, f)) (omega (arith, d))
another-KindsCounted left n k v s d (single o q f b) = several (omega (arith, o))
another-KindsCounted left n k v s d (several t) = several (omega (arith, t))

scalar-KindsCounted :
    (left n : ℕ) (b : Bool) (x : Error) (k : Kinds) (v : JsonValue) {k' : Kinds}
    → size v ≡ 1
    → depth v ≡ 1
    → KindsCounted left n k
    → (if b then err x else ok (another k v)) ≡ ok k'
    → KindsCounted left n k'
scalar-KindsCounted left n true x k v s d h e = absurd (cc e)
scalar-KindsCounted left n false x k v s d h e =
    subst (KindsCounted left n) (ok_eq e) (another-KindsCounted left n k v s d h)

null_kind-KindsCounted :
    (left n : ℕ) (raw : Option ℕ) (k : Kinds) {k' : Kinds}
    → KindsCounted left n k
    → null_kind raw k ≡ ok k'
    → KindsCounted left n k'
null_kind-KindsCounted left n none k h e = subst (KindsCounted left n) (ok_eq e) h
null_kind-KindsCounted left n (some raw) k h e =
    scalar-KindsCounted left n (not (raw == 0)) _ k null refl refl h e

number_kind-KindsCounted :
    (left n : ℕ) (raw : Option ℕ) (k : Kinds) {k' : Kinds}
    → KindsCounted left n k
    → number_kind raw k ≡ ok k'
    → KindsCounted left n k'
number_kind-KindsCounted left n none k h e = subst (KindsCounted left n) (ok_eq e) h
number_kind-KindsCounted left n (some raw) k h e =
    scalar-KindsCounted left n (is_not_finite raw) _ k (number raw) refl refl h e

string_kind-KindsCounted :
    (left n : ℕ) (raw : Option Bytes) (k : Kinds) {k' : Kinds}
    → KindsCounted left n k
    → string_kind raw k ≡ ok k'
    → KindsCounted left n k'
string_kind-KindsCounted left n none k h e = subst (KindsCounted left n) (ok_eq e) h
string_kind-KindsCounted left n (some raw) k h e =
    scalar-KindsCounted left n (not (valid_utf8 raw)) _ k (string raw) refl refl h e

boolean_kind-KindsCounted :
    (left n : ℕ) (raw : Option ℕ) (k : Kinds) {k' : Kinds}
    → KindsCounted left n k
    → boolean_kind raw k ≡ ok k'
    → KindsCounted left n k'
boolean_kind-KindsCounted left n none k h e = subst (KindsCounted left n) (ok_eq e) h
boolean_kind-KindsCounted left n (some raw) k h e =
    scalar-KindsCounted left n (ltb 1 raw) _ k (boolean (raw == 1)) refl refl h e

-- An object or a list, counted from the nodes of the blocks before it.
compound-KindsCounted :
    (left n : ℕ) (k : Kinds) (v : JsonValue) (inner nodes deep : ℕ)
    → size v ≡ 1 + inner
    → depth v ≡ 1 + deep
    → (k.nodes ≤ max_proto_json_nodes
        → (nodes ≡ k.nodes + inner) × (nodes ≤ max_proto_json_nodes) × (deep ≤ left))
    → KindsCounted left n k
    → KindsCounted left n (record (another k v) { nodes = nodes })
compound-KindsCounted left n k v inner nodes deep s d counted (nothing z q f) =
    let (c, fits, below) = counted (omega (arith, q, f)) in
    single (omega (arith, z)) (omega (arith, c, q, s)) fits (omega (arith, d, below))
compound-KindsCounted left n k v inner nodes deep s d counted (single o q f b) =
    several (omega (arith, o))
compound-KindsCounted left n k v inner nodes deep s d counted (several t) =
    several (omega (arith, t))

module _ ⦃w : Protowire⦄ (left : ℕ) (decode : Decoder) (counts : Counts left decode) where
  struct_kind-KindsCounted :
      (n : ℕ) (raw : Option Bytes) (k : Kinds) {k' : Kinds}
      → KindsCounted left n k
      → struct_kind decode raw k ≡ ok k'
      → KindsCounted left n k'
  unfolding struct_kind decode_proto_struct
  struct_kind-KindsCounted n none k h e = subst (KindsCounted left n) (ok_eq e) h
  struct_kind-KindsCounted n (some raw) k h e =
      let ((es, nodes), decoded, last) =
        bind-eq-ok (decode_proto_struct decode raw k.nodes)
          (λ r. ok (record (another k (object r.0)) { nodes = r.1 })) e in
      let (fields, wire, loop) =
        bind-eq-ok (malformed _ (decode_wire_fields raw))
          (λ fields. decode_entries decode [] (repeated_bytes_field fields 1) k.nodes) decoded in
      subst (KindsCounted left n) (ok_eq last) (
        compound-KindsCounted left n k (object es) (size_entries es) nodes (depth_entries es) refl
          refl
          (λ small.
            decode_entries-EntriesCounted left decode counts [] (repeated_bytes_field fields 1)
              k.nodes small loop)
          h)

  list_kind-KindsCounted :
      (n : ℕ) (raw : Option Bytes) (k : Kinds) {k' : Kinds}
      → KindsCounted left n k
      → list_kind decode raw k ≡ ok k'
      → KindsCounted left n k'
  unfolding list_kind decode_proto_list
  list_kind-KindsCounted n none k h e = subst (KindsCounted left n) (ok_eq e) h
  list_kind-KindsCounted n (some raw) k h e =
      let ((xs, nodes), decoded, last) =
        bind-eq-ok (decode_proto_list decode raw k.nodes)
          (λ r. ok (record (another k (array r.0)) { nodes = r.1 })) e in
      let (fields, wire, loop) =
        bind-eq-ok (malformed _ (decode_wire_fields raw))
          (λ fields. decode_items decode (repeated_bytes_field fields 1) k.nodes) decoded in
      subst (KindsCounted left n) (ok_eq last) (
        compound-KindsCounted left n k (array xs) (size_items xs) nodes (depth_items xs) refl refl
          (λ small.
            decode_items-ItemsCounted left decode counts (repeated_bytes_field fields 1) k.nodes
              small loop)
          h)

  pub decode_kinds-KindsCounted :
      (fields : List WireField) (n : ℕ) {k : Kinds}
      → n ≤ max_proto_json_nodes
      → decode_kinds decode fields n ≡ ok k
      → KindsCounted left n k
  unfolding decode_kinds
  decode_kinds-KindsCounted fields n small e =
      let k0 : Kinds = record { kinds = 0; value = null; nodes = n } in
      let (k1, q1, e1) = bind-eq-ok (null_kind (last_varint_field fields 1) k0) _ e in
      let (k2, q2, e2) = bind-eq-ok (number_kind (last_fixed64_field fields 2) k1) _ e1 in
      let (k3, q3, e3) = bind-eq-ok (string_kind (last_bytes_field fields 3) k2) _ e2 in
      let (k4, q4, e4) = bind-eq-ok (boolean_kind (last_varint_field fields 4) k3) _ e3 in
      let (k5, q5, e5) =
        bind-eq-ok (struct_kind decode (last_bytes_field fields 5) k4)
          (λ k. list_kind decode (last_bytes_field fields 6) k) e4 in
      let h1 =
        null_kind-KindsCounted left n (last_varint_field fields 1) k0 (nothing refl refl small)
          q1 in
      let h2 = number_kind-KindsCounted left n (last_fixed64_field fields 2) k1 h1 q2 in
      let h3 = string_kind-KindsCounted left n (last_bytes_field fields 3) k2 h2 q3 in
      let h4 = boolean_kind-KindsCounted left n (last_varint_field fields 4) k3 h3 q4 in
      let h5 = struct_kind-KindsCounted n (last_bytes_field fields 5) k4 h4 q5 in
      list_kind-KindsCounted n (last_bytes_field fields 6) k5 h5 e5

-- The value of blocks that were counted, where one kind was found.
pub one_kind-IsCounted :
    (left n : ℕ) (k : Kinds)
    → not (k.kinds == 1) ≡ false
    → KindsCounted left (n + 1) k
    → IsCounted (suc left) n (k.value, k.nodes)
one_kind-IsCounted left n k one (nothing z q f) = absurd (ground (arith, z, one))
one_kind-IsCounted left n k one (single o q f d) = (omega (arith, q), f, d)
one_kind-IsCounted left n k one (several t) = absurd (ground (arith, t, one))
