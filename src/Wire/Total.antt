-- ===== src/Wire/Total.antt =====
-- The fuel of `decodeWireFields` and what its rounds take of it.
use cursor_cli_byok.Base.{
  ℕ, zero, suc, ◌-◌, ◌≤◌, ◌≡◌, ◌≢◌, inl, inr, [], ◌∷◌, Bytes, Result, ok, err, ◌>>=◌, out_of_fuel,
  Result-cases, Option-cases, length, drop, length-drop, arith,
}
use cursor_cli_byok.Wire.Protowire.{Protowire}
use cursor_cli_byok.Wire.Fields.{
  WireField, consumed, consume_value, next_field, decode_loop, decode_wire_fields,
}

module _ ⦃w : Protowire⦄ where
  consume_value-ne_fuel :
      (number kind : ℕ) (payload : Bytes) → consume_value number kind payload ≢ err out_of_fuel
  unfolding consume_value
  consume_value-ne_fuel number kind payload = ground arith

  -- What a round does once the tag is read.
  behind_tag : Bytes → ℕ × ℕ × ℕ → Result (WireField × Bytes)
  behind_tag payload (number, kind, tag_length) =
      consume_value number kind (drop tag_length payload) >>= λ r.
      ok (r.0, drop r.1 (drop tag_length payload))

  next_field-behind_tag :
      (payload : Bytes)
      → next_field payload ≡ (consumed (w.consume_tag payload) >>= behind_tag payload)
  unfolding next_field behind_tag
  next_field-behind_tag payload = ground arith

  behind_tag-length :
      (payload : Bytes) (number kind read : ℕ) {f : WireField} {rest : Bytes}
      → behind_tag payload (number, kind, read) ≡ ok (f, rest)
      → length rest ≤ length payload - read
  unfolding behind_tag
  behind_tag-length payload number kind read {f} {rest} e =
      elim (Result-cases (consume_value number kind (drop read payload))) [
        | inl (r, q) ↦
            let e' : ◌≡◌ {A = Result (WireField × Bytes)} (ok (r.0, drop r.1 (drop read payload)))
                (ok (f, rest)) =
              rw q at e in
            let same_rest : drop r.1 (drop read payload) ≡ rest = cc in
            rw (← same_rest)
              (omega (arith, length-drop r.1 (drop read payload), length-drop read payload))
        | inr (x, q) ↦ absurd (cc (rw q at e))
      ]

  -- A round reads a byte at least, or fails by itself.
  next_field_progress :
      (payload : Bytes) {f : WireField} {rest : Bytes}
      → next_field payload ≡ ok (f, rest)
      → 1 ≤ length payload
      → suc (length rest) ≤ length payload
  next_field_progress payload {f} {rest} e pos = elim (Option-cases (w.consume_tag payload)) [
    | inl q ↦ absurd (cc (rw q at (rw next_field-behind_tag at e)))
    | inr ((number, kind, read), q) ↦ omega (
      arith,
      w.consume_tag_pos payload q,
      behind_tag-length payload number kind read (rw q at (rw next_field-behind_tag at e)),
    )
  ]

  next_field-ne_fuel : (payload : Bytes) → next_field payload ≢ err out_of_fuel
  unfolding next_field
  next_field-ne_fuel payload h = elim (Option-cases (w.consume_tag payload)) [
    | inl q ↦ absurd (cc (rw q at h))
    | inr ((number, kind, read), q) ↦
        ground (arith, q, h, consume_value-ne_fuel number kind (drop read payload))
  ]

  decode_loop-ne_fuel :
      (fuel : ℕ) (payload : Bytes)
      → length payload ≤ fuel
      → decode_loop fuel payload ≢ err out_of_fuel
  unfolding decode_loop
  decode_loop-ne_fuel zero [] enough h = cc
  decode_loop-ne_fuel (suc fuel) [] enough h = cc
  decode_loop-ne_fuel zero (b ∷ payload) enough h = absurd (omega arith)
  decode_loop-ne_fuel (suc fuel) (b ∷ payload) enough h =
      elim (Result-cases (next_field (b ∷ payload))) [
        | inl ((f, rest), q) ↦ ground (
          arith,
          q,
          h,
          decode_loop-ne_fuel fuel rest
              (omega (arith, next_field_progress (b ∷ payload) q (omega arith))),
        )
        | inr (x, q) ↦ ground (arith, q, h, next_field-ne_fuel (b ∷ payload))
      ]

  -- Whatever the bytes, decoding ends: with the fields, or with an error of protowire.
  pub decode_wire_fields_total : (payload : Bytes) → decode_wire_fields payload ≢ err out_of_fuel
  unfolding decode_wire_fields
  decode_wire_fields_total payload = decode_loop-ne_fuel (length payload) payload (omega arith)
