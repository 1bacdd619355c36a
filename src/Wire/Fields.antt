-- ===== src/Wire/Fields.antt =====
-- `decodeWireFields`, `lastBytesField`, `lastVarintField`, `lastFixed64Field`, `hasBytesField` and
-- `repeatedBytesField`.
use cursor_cli_byok.Base.{
  ℕ, zero, suc, Bool, true, false, ◌&&◌, Option, none, some, List, [], ◌∷◌, ◌==◌, Bytes, Result, ok,
  err, parse_error, out_of_fuel, ◌>>=◌, length, drop, if◌then◌else◌,
}
use cursor_cli_byok.Wire.Protowire.{Protowire, varint_type, bytes_type, fixed64_type, fixed32_type}

-- `wireField`
pub record WireField : Type 0 where
  pub number : ℕ
  pub type_id : ℕ
  pub bytes : Bytes
  pub varint : ℕ
  pub fixed64 : ℕ
  pub fixed32 : ℕ

abbrev pub empty_field : ℕ → ℕ → WireField
empty_field n t = record {
  number = n;
  type_id = t;
  bytes = [];
  varint = 0;
  fixed64 = 0;
  fixed32 = 0;
}

-- `if valueLength < 0 { return nil, protowire.ParseError(valueLength) }`
abbrev pub consumed {ℓ} : {A : Type ℓ} → Option A → Result A
consumed none = err parse_error
consumed (some a) = ok a

module _ ⦃w : Protowire⦄ where
  -- The switch on the wire type: the field with its value, and the length of the value.
  unfoldable pub consume_value : ℕ → ℕ → Bytes → Result (WireField × ℕ)
  consume_value number kind payload =
      let field = empty_field number kind in
      if kind == bytes_type
      then (do
        (value, read) ← consumed (w.consume_bytes payload)
        ok (record field { bytes = value }, read))
      else if kind == varint_type
      then (do
        (value, read) ← consumed (w.consume_varint payload)
        ok (record field { varint = value }, read))
      else if kind == fixed64_type
      then (do
        (value, read) ← consumed (w.consume_fixed64 payload)
        ok (record field { fixed64 = value }, read))
      else if kind == fixed32_type
      then (do
        (value, read) ← consumed (w.consume_fixed32 payload)
        ok (record field { fixed32 = value }, read))
      else (do read ← consumed (w.consume_field_value number kind payload); ok (field, read))

  -- One round of the loop: a field and the payload behind it.
  unfoldable pub next_field : Bytes → Result (WireField × Bytes)
  next_field payload = do
    (number, kind, tag_length) ← consumed (w.consume_tag payload)
    let behind_tag = drop tag_length payload
    (field, value_length) ← consume_value number kind behind_tag
    ok (field, drop value_length behind_tag)

  -- `for len(payload) > 0`, with fuel for the rounds.
  unfoldable pub decode_loop : ℕ → Bytes → Result (List WireField)
  decode_loop fuel [] = ok []
  decode_loop zero (_ ∷ _) = err out_of_fuel
  decode_loop (suc fuel) (b ∷ payload) =
      next_field (b ∷ payload) >>= λ r. decode_loop fuel r.1 >>= λ fields. ok (r.0 ∷ fields)

  -- The fuel is the length of the payload: a field takes a byte at least.
  unfoldable pub decode_wire_fields : Bytes → Result (List WireField)
  decode_wire_fields payload = decode_loop (length payload) payload

-- The last field with that number and type, as the loops from the end find it.
unfoldable pub last_field : ℕ → ℕ → List WireField → Option WireField
last_field number kind [] = none
last_field number kind (f ∷ fields) = elim (last_field number kind fields) [
  | none ↦ if f.number == number && f.type_id == kind then some f else none
  | some found ↦ some found
]

unfoldable pub last_bytes_field : List WireField → ℕ → Option Bytes
last_bytes_field fields number = elim (last_field number bytes_type fields) [
  | none ↦ none
  | some f ↦ some f.bytes
]

unfoldable pub last_varint_field : List WireField → ℕ → Option ℕ
last_varint_field fields number = elim (last_field number varint_type fields) [
  | none ↦ none
  | some f ↦ some f.varint
]

unfoldable pub last_fixed64_field : List WireField → ℕ → Option ℕ
last_fixed64_field fields number = elim (last_field number fixed64_type fields) [
  | none ↦ none
  | some f ↦ some f.fixed64
]

unfoldable pub has_bytes_field : List WireField → ℕ → Bool
has_bytes_field fields number = elim (last_bytes_field fields number) [
  | none ↦ false
  | some _ ↦ true
]

-- `value, _ := lastBytesField(...)`: nothing found is the empty value.
abbrev pub or_empty : Option Bytes → Bytes
or_empty none = []
or_empty (some b) = b

abbrev pub or_zero : Option ℕ → ℕ
or_zero none = 0
or_zero (some n) = n

-- `repeatedBytesField` of internal/protocol/tool_files.go
unfoldable pub repeated_bytes_field : List WireField → ℕ → List Bytes
repeated_bytes_field [] number = []
repeated_bytes_field (f ∷ fields) number =
    let rest = repeated_bytes_field fields number in
    if f.number == number && f.type_id == bytes_type then f.bytes ∷ rest else rest
