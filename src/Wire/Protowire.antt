-- ===== src/Wire/Protowire.antt =====
-- google.golang.org/protobuf/encoding/protowire, which the program calls and does not contain: the
-- calls, and of their documentation what the theorems rely on.
use cursor_cli_byok.Base.{ℕ, ◌≤◌, ◌<◌, ◌^◌, ◌≡◌, Option, some, ◌++◌, Bytes, length}

-- `protowire.Type`
abbrev pub varint_type : ℕ
varint_type = 0

abbrev pub fixed64_type : ℕ
fixed64_type = 1

abbrev pub bytes_type : ℕ
bytes_type = 2

abbrev pub fixed32_type : ℕ
fixed32_type = 5

-- `append_tag n t` stands for what `AppendTag(b, n, t)` puts behind `b`, and so for the others.
-- A `Consume` call returns the value and the bytes read; `none` is a negative length.
pub record Protowire : Type 0 where
  pub append_tag : ℕ → ℕ → Bytes
  pub append_varint : ℕ → Bytes
  pub append_bytes : Bytes → Bytes
  pub append_fixed64 : ℕ → Bytes
  pub consume_tag : Bytes → Option (ℕ × ℕ × ℕ)
  pub consume_varint : Bytes → Option (ℕ × ℕ)
  pub consume_bytes : Bytes → Option (Bytes × ℕ)
  pub consume_fixed64 : Bytes → Option (ℕ × ℕ)
  pub consume_fixed32 : Bytes → Option (ℕ × ℕ)
  pub consume_field_value : ℕ → ℕ → Bytes → Option ℕ
  -- A tag of a valid number and type is read back, and so are varints, byte strings and the
  -- numbers of 64 bits.
  pub consume_tag-append :
      (number kind : ℕ) (rest : Bytes)
      → 1 ≤ number
      → number < 2 ^ 29
      → kind < 6
      → consume_tag (append_tag number kind ++ rest)
        ≡ some (number, kind, length (append_tag number kind))
  pub consume_varint-append :
      (value : ℕ) (rest : Bytes)
      → value < 2 ^ 64
      → consume_varint (append_varint value ++ rest) ≡ some (value, length (append_varint value))
  pub consume_bytes-append :
      (value rest : Bytes)
      → length value < 2 ^ 64
      → consume_bytes (append_bytes value ++ rest) ≡ some (value, length (append_bytes value))
  pub consume_fixed64-append :
      (value : ℕ) (rest : Bytes)
      → value < 2 ^ 64
      → consume_fixed64 (append_fixed64 value ++ rest) ≡ some (value, length (append_fixed64 value))
  -- A byte string is written with its length in front.
  pub append_bytes-length : (value : Bytes) → length value ≤ length (append_bytes value)
  -- A tag that is read takes at least one byte.
  pub consume_tag_pos :
      (payload : Bytes) {number kind read : ℕ}
      → consume_tag payload ≡ some (number, kind, read)
      → 1 ≤ read
