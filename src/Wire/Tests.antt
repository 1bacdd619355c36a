-- ===== src/Wire/Tests.antt =====
-- Messages of concrete fields, over base-128 varints.
use cursor_cli_byok.Base.{◌≡◌, ◌≢◌, List, [], ◌∷◌, map, ok, err, out_of_fuel, arith, All}
use cursor_cli_byok.Wire.Sample.{base128}
use cursor_cli_byok.Wire.Fields.{decode_wire_fields}
use cursor_cli_byok.Wire.RoundTrip.{
  Part, bytes_part, varint_part, IsWritable, field_of, write, decode_wire_fields-write,
}
use cursor_cli_byok.Wire.Total.{decode_wire_fields_total}

abbrev two_parts : List Part
two_parts = bytes_part 1 (104 ∷ 105 ∷ []) ∷ varint_part 3 300 ∷ []

two_parts-IsWritable : All IsWritable two_parts
two_parts-IsWritable =
    ((omega arith, omega arith, omega arith), ((omega arith, omega arith, omega arith), tt))

decode_wire_fields-write_example :
    decode_wire_fields (write two_parts) ≡ ok (map field_of two_parts)
decode_wire_fields-write_example = decode_wire_fields-write two_parts two_parts-IsWritable

-- A length that promises more bytes than there are.
decode_wire_fields_total_example : decode_wire_fields (10 ∷ 5 ∷ 104 ∷ []) ≢ err out_of_fuel
decode_wire_fields_total_example = decode_wire_fields_total (10 ∷ 5 ∷ 104 ∷ [])
