-- ===== src/Protocol/Mcp/Names.antt =====
-- The names of the MCP tools that a run request brings.
use cursor_cli_byok.Base.{
  false, ◌≤◌, ◌≡◌, ◌≢◌, refl, sym, ap, subst, not, Option, none, some, inl, inr, List, [], ◌∷◌,
  ◌++◌, Bytes, ok, ◌>>=◌, Bool-cases, leb, length, length-append, map, All-append, arith,
  bind-eq-ok, ok_eq, if◌then◌else◌, ◌==◌,
}
use cursor_cli_byok.Provider.{contains}
use cursor_cli_byok.Provider.Validity.{IsDistinct, IsFresh, contains-IsFresh}
use cursor_cli_byok.Runner.Events.{McpToolDefinition}
use cursor_cli_byok.Wire.Protowire.{Protowire}
use cursor_cli_byok.Wire.Fields.{
  WireField, decode_wire_fields, last_bytes_field, last_varint_field, repeated_bytes_field, or_zero,
}
use cursor_cli_byok.Protocol.Schema.{JsonValue, malformed}
use cursor_cli_byok.Protocol.Mcp.{
  max_mcp_tools, definition_name, append_definition, append_definitions, decode_mcp_tool_definition,
  decode_mcp_descriptor, decode_definitions, decode_descriptors, decode_tools_field,
  decode_options_field, decode_mcp_tools,
}

-- No two tools have one name, and they are not too many.
pub record IsToolList (tools : List McpToolDefinition) : Type 0 where
  pub distinct : IsDistinct (map definition_name tools)
  pub length_le : length tools ≤ max_mcp_tools

IsDistinct-snoc :
    (names : List Bytes) (name : Bytes)
    → IsDistinct names
    → IsFresh name names
    → IsDistinct (names ++ name ∷ [])
IsDistinct-snoc [] name h new = (tt, tt)
IsDistinct-snoc (n ∷ names) name h new = (
  All-append (λ other. other ≢ n) names (name ∷ []) h.0 ((λ e. new.0 (sym e)), tt),
  IsDistinct-snoc names name h.1 new.1,
)

map-snoc :
    (tools : List McpToolDefinition) (d : McpToolDefinition)
    → map definition_name (tools ++ d ∷ []) ≡ map definition_name tools ++ d.name ∷ []
map-snoc [] d = refl
map-snoc (t ∷ tools) d = ap (◌∷◌ t.name) (map-snoc tools d)

-- One more tool, where there is room and the name is new.
pub IsToolList-snoc :
    (d : McpToolDefinition) (tools : List McpToolDefinition)
    → IsToolList tools
    → leb max_mcp_tools (length tools) ≡ false
    → contains d.name (map definition_name tools) ≡ false
    → IsToolList (tools ++ d ∷ [])
IsToolList-snoc d tools h room new = record {
  distinct = rw (map-snoc tools d) (
      IsDistinct-snoc (map definition_name tools) d.name h.distinct
        (contains-IsFresh d.name (map definition_name tools) new));
  length_le = ground (arith, room, length-append tools (d ∷ []));
}

append_definition-IsToolList :
    (d : McpToolDefinition) (tools : List McpToolDefinition) {result : List McpToolDefinition}
    → IsToolList tools
    → append_definition d tools ≡ ok result
    → IsToolList result
unfolding append_definition
append_definition-IsToolList d tools {result} h e =
    elim (Bool-cases (leb max_mcp_tools (length tools))) [
      | inl full ↦ absurd (ground (arith, full, e))
      | inr room ↦ elim (Bool-cases (contains d.name (map definition_name tools))) [
        | inl twice ↦ absurd (ground (arith, room, twice, e))
        | inr new ↦
            let same_result : tools ++ d ∷ [] ≡ result = ground (arith, room, new, e) in
            subst IsToolList same_result (IsToolList-snoc d tools h room new)
      ]
    ]

append_definitions-IsToolList :
    (definitions tools : List McpToolDefinition) {result : List McpToolDefinition}
    → IsToolList tools
    → append_definitions definitions tools ≡ ok result
    → IsToolList result
unfolding append_definitions
append_definitions-IsToolList [] tools h e = subst IsToolList (ok_eq e) h
append_definitions-IsToolList (d ∷ definitions) tools h e =
    let (tools', added, rest) =
      bind-eq-ok (append_definition d tools) (λ t. append_definitions definitions t) e in
    append_definitions-IsToolList definitions tools' (append_definition-IsToolList d tools h added)
      rest

module _ ⦃w : Protowire⦄ (marshal : JsonValue → Option Bytes) where
  decode_definitions-IsToolList :
      (payloads : List Bytes) (tools : List McpToolDefinition) {result : List McpToolDefinition}
      → IsToolList tools
      → decode_definitions marshal payloads tools ≡ ok result
      → IsToolList result
  unfolding decode_definitions
  decode_definitions-IsToolList [] tools h e = subst IsToolList (ok_eq e) h
  decode_definitions-IsToolList (p ∷ payloads) tools h e =
      let (d, decoded, more) =
        bind-eq-ok (decode_mcp_tool_definition marshal p)
          (λ d. append_definition d tools >>= λ t. decode_definitions marshal payloads t) e in
      let (tools', appended, rest) =
        bind-eq-ok (append_definition d tools) (λ t. decode_definitions marshal payloads t) more in
      decode_definitions-IsToolList payloads tools'
        (append_definition-IsToolList d tools h appended) rest

  decode_descriptors-IsToolList :
      (payloads : List Bytes) (tools : List McpToolDefinition) {result : List McpToolDefinition}
      → IsToolList tools
      → decode_descriptors marshal payloads tools ≡ ok result
      → IsToolList result
  unfolding decode_descriptors
  decode_descriptors-IsToolList [] tools h e = subst IsToolList (ok_eq e) h
  decode_descriptors-IsToolList (p ∷ payloads) tools h e =
      let (ds, decoded, more) =
        bind-eq-ok (decode_mcp_descriptor marshal p)
          (λ d. append_definitions d tools >>= λ t. decode_descriptors marshal payloads t) e in
      let (tools', appended, rest) =
        bind-eq-ok (append_definitions ds tools) (λ t. decode_descriptors marshal payloads t)
          more in
      decode_descriptors-IsToolList payloads tools'
        (append_definitions-IsToolList ds tools h appended) rest

  decode_tools_field-IsToolList :
      (field : Option Bytes) {result : List McpToolDefinition}
      → decode_tools_field marshal field ≡ ok result
      → IsToolList result
  unfolding decode_tools_field
  decode_tools_field-IsToolList none e =
      subst IsToolList (ok_eq e) (record { distinct = tt; length_le = omega arith })
  decode_tools_field-IsToolList (some payload) e =
      let (fields, decoded, rest) =
        bind-eq-ok (malformed _ (decode_wire_fields payload))
          (λ fields. decode_definitions marshal (repeated_bytes_field fields 1) []) e in
      decode_definitions-IsToolList (repeated_bytes_field fields 1) []
        (record { distinct = tt; length_le = omega arith }) rest

  decode_options_field-IsToolList :
      (field : Option Bytes) (tools : List McpToolDefinition) {result : List McpToolDefinition}
      → IsToolList tools
      → decode_options_field marshal field tools ≡ ok result
      → IsToolList result
  unfolding decode_options_field
  decode_options_field-IsToolList none tools h e = subst IsToolList (ok_eq e) h
  decode_options_field-IsToolList (some payload) tools h e =
      let (fields, decoded, rest) =
        bind-eq-ok (malformed _ (decode_wire_fields payload))
          (λ fields.
            if not (or_zero (last_varint_field fields 1) == 0)
            then decode_descriptors marshal (repeated_bytes_field fields 3) tools
            else ok tools)
          e in
      elim (Bool-cases (not (or_zero (last_varint_field fields 1) == 0))) [
        | inl y ↦
            decode_descriptors-IsToolList (repeated_bytes_field fields 3) tools h (rw y at rest)
        | inr n ↦ subst IsToolList (ok_eq (rw n at rest)) h
      ]

  -- Whatever the run request: no two of the MCP tools that are decoded have one name, and they are
  -- 256 at most.
  pub decode_mcp_tools-IsToolList :
      (fields : List WireField) {tools : List McpToolDefinition}
      → decode_mcp_tools marshal fields ≡ ok tools
      → IsToolList tools
  unfolding decode_mcp_tools
  decode_mcp_tools-IsToolList fields e =
      let (tools', first, second) =
        bind-eq-ok (decode_tools_field marshal (last_bytes_field fields 4))
          (λ t. decode_options_field marshal (last_bytes_field fields 6) t) e in
      decode_options_field-IsToolList (last_bytes_field fields 6) tools'
        (decode_tools_field-IsToolList (last_bytes_field fields 4) first) second
