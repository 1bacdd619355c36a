-- ===== src/Wire/RoundTrip.antt =====
-- Messages as the `append` functions of internal/protocol build them, and `decodeWireFields` on them.
use cursor_cli_byok.Base.{
  ℕ, zero, suc, ◌≤◌, ◌<◌, ◌^◌, ◌≡◌, refl, sym, Bool, List, [], ◌∷◌, ◌++◌, map, Bytes, ok, ◌>>=◌,
  length, All, length-append, drop-append_length, append_assoc, append-nil, arith, if◌then◌else◌,
}
use cursor_cli_byok.Wire.Protowire.{Protowire, varint_type, bytes_type, fixed64_type}
use cursor_cli_byok.Wire.Encode.{append_string, append_message, append_varint, append_bool}
use cursor_cli_byok.Wire.Fields.{
  WireField, empty_field, consume_value, next_field, decode_loop, decode_wire_fields,
}

-- A message as the list of what was appended to it.
pub data Part : Type 0 where
  bytes_part : ℕ → Bytes → Part
  varint_part : ℕ → ℕ → Part
  fixed64_part : ℕ → ℕ → Part

abbrev pub number_of : Part → ℕ
number_of (bytes_part n _) = n
number_of (varint_part n _) = n
number_of (fixed64_part n _) = n

-- Field numbers are those of protobuf; varints and lengths have 64 bits.
abbrev pub IsWritable : Part → Type 0
IsWritable (bytes_part n b) = (1 ≤ n) × (n < 2 ^ 29) × (length b < 2 ^ 64)
IsWritable (varint_part n v) = (1 ≤ n) × (n < 2 ^ 29) × (v < 2 ^ 64)
IsWritable (fixed64_part n v) = (1 ≤ n) × (n < 2 ^ 29) × (v < 2 ^ 64)

abbrev pub field_of : Part → WireField
field_of (bytes_part n b) = record (empty_field n bytes_type) { bytes = b }
field_of (varint_part n v) = record (empty_field n varint_type) { varint = v }
field_of (fixed64_part n v) = record (empty_field n fixed64_type) { fixed64 = v }

module _ ⦃w : Protowire⦄ where
  unfoldable pub write_part : Part → Bytes
  write_part (bytes_part n b) = w.append_tag n bytes_type ++ w.append_bytes b
  write_part (varint_part n v) = w.append_tag n varint_type ++ w.append_varint v
  write_part (fixed64_part n v) = w.append_tag n fixed64_type ++ w.append_fixed64 v

  unfoldable pub write : List Part → Bytes
  write [] = []
  write (p ∷ ps) = write_part p ++ write ps

  pub write-append : (ps qs : List Part) → write (ps ++ qs) ≡ write ps ++ write qs
  unfolding write
  write-append [] qs = refl
  write-append (p ∷ ps) qs =
      rw (write-append ps qs) (sym (append_assoc (write_part p) (write ps) (write qs)))

  write_one : (p : Part) → write (p ∷ []) ≡ write_part p
  unfolding write
  write_one p = append-nil (write_part p)

  pub append_string-write :
      (ps : List Part) (n : ℕ) (v : Bytes)
      → append_string (write ps) n v ≡ write (ps ++ bytes_part n v ∷ [])
  unfolding append_string write_part
  append_string-write ps n v = rw write-append (rw write_one)

  pub append_message-write :
      (ps : List Part) (n : ℕ) (v : Bytes)
      → append_message (write ps) n v ≡ write (ps ++ bytes_part n v ∷ [])
  unfolding append_message write_part
  append_message-write ps n v = rw write-append (rw write_one)

  pub append_varint-write :
      (ps : List Part) (n v : ℕ) → append_varint (write ps) n v ≡ write (ps ++ varint_part n v ∷ [])
  unfolding append_varint write_part
  append_varint-write ps n v = rw write-append (rw write_one)

  pub append_bool-write :
      (ps : List Part) (n : ℕ) (v : Bool)
      → append_bool (write ps) n v ≡ write (ps ++ varint_part n (if v then 1 else 0) ∷ [])
  unfolding append_bool write_part
  append_bool-write ps n v = rw write-append (rw write_one)

  pub write_nil : write [] ≡ []
  unfolding write
  write_nil = refl

  next_field-write :
      (p : Part) (rest : Bytes)
      → IsWritable p
      → next_field (write_part p ++ rest) ≡ ok (field_of p, rest)
  unfolding next_field write_part consume_value
  next_field-write (bytes_part n b) rest h =
      rw (append_assoc (w.append_tag n bytes_type) (w.append_bytes b) rest) (
        rw (w.consume_tag-append n bytes_type (w.append_bytes b ++ rest) h.0 h.1 (omega arith))
          (rw drop-append_length (rw (w.consume_bytes-append b rest h.2) (rw drop-append_length))))
  next_field-write (varint_part n v) rest h =
      rw (append_assoc (w.append_tag n varint_type) (w.append_varint v) rest) (
        rw (w.consume_tag-append n varint_type (w.append_varint v ++ rest) h.0 h.1 (omega arith))
          (rw drop-append_length (rw (w.consume_varint-append v rest h.2) (rw drop-append_length))))
  next_field-write (fixed64_part n v) rest h =
      rw (append_assoc (w.append_tag n fixed64_type) (w.append_fixed64 v) rest) (
        rw (w.consume_tag-append n fixed64_type (w.append_fixed64 v ++ rest) h.0 h.1 (omega arith))
          (rw drop-append_length
            (rw (w.consume_fixed64-append v rest h.2) (rw drop-append_length))))

  append_tag_pos : (n k : ℕ) → 1 ≤ n → n < 2 ^ 29 → k < 6 → 1 ≤ length (w.append_tag n k)
  append_tag_pos n k lo hi small =
      w.consume_tag_pos (w.append_tag n k ++ []) (w.consume_tag-append n k [] lo hi small)

  write_part_pos : (p : Part) → IsWritable p → 1 ≤ length (write_part p)
  unfolding write_part
  write_part_pos (bytes_part n b) h = omega (
    arith,
    append_tag_pos n bytes_type h.0 h.1 (omega arith),
    length-append (w.append_tag n bytes_type) (w.append_bytes b),
  )
  write_part_pos (varint_part n v) h = omega (
    arith,
    append_tag_pos n varint_type h.0 h.1 (omega arith),
    length-append (w.append_tag n varint_type) (w.append_varint v),
  )
  write_part_pos (fixed64_part n v) h = omega (
    arith,
    append_tag_pos n fixed64_type h.0 h.1 (omega arith),
    length-append (w.append_tag n fixed64_type) (w.append_fixed64 v),
  )

  decode_loop_step :
      (fuel : ℕ) (payload : Bytes) {f : WireField} {rest : Bytes}
      → 1 ≤ length payload
      → next_field payload ≡ ok (f, rest)
      → decode_loop (suc fuel) payload ≡ (decode_loop fuel rest >>= λ fields. ok (f ∷ fields))
  unfolding decode_loop
  decode_loop_step fuel [] pos e = absurd (omega arith)
  decode_loop_step fuel (b ∷ payload) pos e = rw e

  decode_loop-write :
      (fuel : ℕ) (ps : List Part)
      → All IsWritable ps
      → length (write ps) ≤ fuel
      → decode_loop fuel (write ps) ≡ ok (map field_of ps)
  unfolding write
  decode_loop-write zero [] h enough = unfold decode_loop in refl
  decode_loop-write (suc fuel) [] h enough = unfold decode_loop in refl
  decode_loop-write zero (p ∷ ps) h enough =
      absurd (omega (arith, write_part_pos p h.0, length-append (write_part p) (write ps)))
  decode_loop-write (suc fuel) (p ∷ ps) h enough =
      rw
        (decode_loop_step fuel (write_part p ++ write ps)
          (omega (arith, write_part_pos p h.0, length-append (write_part p) (write ps)))
          (next_field-write p (write ps) h.0))
        (rw (
          decode_loop-write fuel ps h.1
            (omega (arith, write_part_pos p h.0, length-append (write_part p) (write ps)))))

  -- The fields of a written message are its parts, in order.
  pub decode_wire_fields-write :
      (ps : List Part) → All IsWritable ps → decode_wire_fields (write ps) ≡ ok (map field_of ps)
  unfolding decode_wire_fields
  decode_wire_fields-write ps h = decode_loop-write (length (write ps)) ps h (omega arith)
