-- ===== src/Wire/Encode.antt =====
-- `appendString`, `appendMessage`, `appendBool` and `appendVarint` of internal/protocol/wire.go.
use cursor_cli_byok.Base.{ℕ, Bool, ◌++◌, Bytes, if◌then◌else◌}
use cursor_cli_byok.Wire.Protowire.{Protowire, varint_type, bytes_type}

module _ ⦃w : Protowire⦄ where
  unfoldable pub append_string : Bytes → ℕ → Bytes → Bytes
  append_string payload number value =
      payload ++ (w.append_tag number bytes_type ++ w.append_bytes value)

  unfoldable pub append_message : Bytes → ℕ → Bytes → Bytes
  append_message payload number message =
      payload ++ (w.append_tag number bytes_type ++ w.append_bytes message)

  unfoldable pub append_varint : Bytes → ℕ → ℕ → Bytes
  append_varint payload number value =
      payload ++ (w.append_tag number varint_type ++ w.append_varint value)

  unfoldable pub append_bool : Bytes → ℕ → Bool → Bytes
  append_bool payload number value =
      payload ++ (w.append_tag number varint_type ++ w.append_varint (if value then 1 else 0))
