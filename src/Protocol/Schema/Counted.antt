-- ===== src/Protocol/Schema/Counted.antt =====
-- The entries and the items that are decoded in internal/protocol/mcp.go, counted.
use cursor_cli_byok.Base.{
  ℕ, ◌+◌, ◌≤◌, ◌≡◌, refl, subst, Bool, true, false, not, ◌||◌, List, [], ◌∷◌, Bytes, Result, ok,
  new, Error, ◌>>=◌, ◌>>◌, ltb, arith, bind-eq-ok, ok_eq, if◌then◌else◌, refuse_if,
}
use cursor_cli_byok.Provider.{contains}
use cursor_cli_byok.Wire.Protowire.{Protowire}
use cursor_cli_byok.Wire.Fields.{decode_wire_fields, last_bytes_field, or_empty}
use cursor_cli_byok.Protocol.Text.{valid_utf8}
use cursor_cli_byok.Protocol.Schema.{
  JsonValue, null, number, string, boolean, object, array, JsonEntries, no_entries, entry,
  JsonItems, no_items, item, max_proto_json_nodes, Decoder, malformed, is_missing, decode_entries,
  decode_items,
}

abbrev pub larger : ℕ → ℕ → ℕ
larger a b = if ltb a b then b else a

-- The values in a value, itself included, and how deep they are nested.
abbrev mutual
  pub size : JsonValue → ℕ
  size (object entries) = 1 + size_entries entries
  size (array items) = 1 + size_items items
  size null = 1
  size (number _) = 1
  size (string _) = 1
  size (boolean _) = 1

  pub size_entries : JsonEntries → ℕ
  size_entries no_entries = 0
  size_entries (entry key value rest) = size value + size_entries rest

  pub size_items : JsonItems → ℕ
  size_items no_items = 0
  size_items (item value rest) = size value + size_items rest

abbrev mutual
  pub depth : JsonValue → ℕ
  depth (object entries) = 1 + depth_entries entries
  depth (array items) = 1 + depth_items items
  depth null = 1
  depth (number _) = 1
  depth (string _) = 1
  depth (boolean _) = 1

  pub depth_entries : JsonEntries → ℕ
  depth_entries no_entries = 0
  depth_entries (entry key value rest) = larger (depth value) (depth_entries rest)

  pub depth_items : JsonItems → ℕ
  depth_items no_items = 0
  depth_items (item value rest) = larger (depth value) (depth_items rest)

-- What a value, entries or items keep to that were decoded with `n` values before.
abbrev pub IsCounted : ℕ → ℕ → JsonValue × ℕ → Type 0
IsCounted left n (v, n') = (n' ≡ n + size v) × (n' ≤ max_proto_json_nodes) × (depth v ≤ left)

abbrev pub EntriesCounted : ℕ → ℕ → JsonEntries × ℕ → Type 0
EntriesCounted left n (es, n') =
    (n' ≡ n + size_entries es) × (n' ≤ max_proto_json_nodes) × (depth_entries es ≤ left)

abbrev pub ItemsCounted : ℕ → ℕ → JsonItems × ℕ → Type 0
ItemsCounted left n (xs, n') =
    (n' ≡ n + size_items xs) × (n' ≤ max_proto_json_nodes) × (depth_items xs ≤ left)

abbrev pub Counts : ℕ → Decoder → Type 0
Counts left decode =
    (payload : Bytes) (n : ℕ) (r : JsonValue × ℕ) → decode payload n ≡ ok r → IsCounted left n r

-- A test that refuses, passed.
pub past :
    {A : Type 0} (b : Bool) (x : Error) {r : Result A} {a : A}
    → (refuse_if b x >> r) ≡ ok a
    → r ≡ ok a
past true x e = absurd (cc e)
past false x e = e

pub passed :
    {A : Type 0} (b : Bool) (x : Error) (r : Result A) {a : A}
    → (refuse_if b x >> r) ≡ ok a
    → b ≡ false
passed true x r e = absurd (cc e)
passed false x r e = refl

entry-EntriesCounted :
    (left n : ℕ) (key : Bytes) (v : JsonValue) (n1 : ℕ) (rest : JsonEntries) (n2 : ℕ)
    → IsCounted left n (v, n1)
    → EntriesCounted left n1 (rest, n2)
    → EntriesCounted left n (entry key v rest, n2)
entry-EntriesCounted left n key v n1 rest n2 (c, f, d) (c', f', d') =
    (omega (arith, c, c'), f', ground (arith, d, d'))

item-ItemsCounted :
    (left n : ℕ) (v : JsonValue) (n1 : ℕ) (rest : JsonItems) (n2 : ℕ)
    → IsCounted left n (v, n1)
    → ItemsCounted left n1 (rest, n2)
    → ItemsCounted left n (item v rest, n2)
item-ItemsCounted left n v n1 rest n2 (c, f, d) (c', f', d') =
    (omega (arith, c, c'), f', ground (arith, d, d'))

module _ ⦃w : Protowire⦄ (left : ℕ) (decode : Decoder) (counts : Counts left decode) where
  pub decode_items-ItemsCounted :
      (payloads : List Bytes) (n : ℕ) {r : JsonItems × ℕ}
      → n ≤ max_proto_json_nodes
      → decode_items decode payloads n ≡ ok r
      → ItemsCounted left n r
  unfolding decode_items
  decode_items-ItemsCounted [] n small e =
      subst (ItemsCounted left n) (ok_eq e) (omega arith, small, omega arith)
  decode_items-ItemsCounted (p ∷ payloads) n small e =
      let ((v, n1), first, more) =
        bind-eq-ok (decode p n)
          (λ r. decode_items decode payloads r.1 >>= λ s. ok (item r.0 s.0, s.1)) e in
      let ((rest, n2), others, last) =
        bind-eq-ok (decode_items decode payloads n1) (λ s. ok (item v s.0, s.1)) more in
      let h = counts p n (v, n1) first in
      subst (ItemsCounted left n) (ok_eq last)
        (item-ItemsCounted left n v n1 rest n2 h (decode_items-ItemsCounted payloads n1 h.1 others))

  pub decode_entries-EntriesCounted :
      (seen payloads : List Bytes) (n : ℕ) {r : JsonEntries × ℕ}
      → n ≤ max_proto_json_nodes
      → decode_entries decode seen payloads n ≡ ok r
      → EntriesCounted left n r
  unfolding decode_entries
  decode_entries-EntriesCounted seen [] n small e =
      subst (EntriesCounted left n) (ok_eq e) (omega arith, small, omega arith)
  decode_entries-EntriesCounted seen (p ∷ payloads) n small e =
      let (fields, decoded, e1) = bind-eq-ok (malformed _ (decode_wire_fields p)) _ e in
      let key = or_empty (last_bytes_field fields 1) in
      let value = or_empty (last_bytes_field fields 2) in
      let e2 =
        past
          (is_missing (last_bytes_field fields 1)
            || (is_missing (last_bytes_field fields 2) || not (valid_utf8 key)))
          (new "run request MCP schema object entry is invalid") e1 in
      let e3 =
        past (contains key seen) (new "run request MCP schema object has duplicate keys") e2 in
      let ((v, n1), first, more) =
        bind-eq-ok (decode value n)
          (λ r.
            decode_entries decode (key ∷ seen) payloads r.1 >>= λ s. ok (entry key r.0 s.0, s.1))
          e3 in
      let ((rest, n2), others, last) =
        bind-eq-ok (decode_entries decode (key ∷ seen) payloads n1) (λ s. ok (entry key v s.0, s.1))
          more in
      let h = counts value n (v, n1) first in
      subst (EntriesCounted left n) (ok_eq last) (
        entry-EntriesCounted left n key v n1 rest n2 h
          (decode_entries-EntriesCounted (key ∷ seen) payloads n1 h.1 others))
