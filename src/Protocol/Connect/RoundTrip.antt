-- ===== src/Protocol/Connect/RoundTrip.antt =====
-- The envelopes of internal/protocol/connect.go that are written and read back.
use cursor_cli_byok.Base.{
  ℕ, zero, suc, ◌/◌, ◌%◌, ◌^◌, ◌<◌, ◌≤◌, ◌≡◌, refl, ap, [], ◌∷◌, ◌++◌, Bytes, ok, length, take,
  arith, drop-append_length, length-append,
}
use cursor_cli_byok.Protocol.Connect.{
  put_uint32, encode_connect_message, uint32, request_flag, decode_sized, decode_connect_request,
  stream_flag, read_connect_message,
}

put_uint32_lem :
    (n : ℕ)
    → n < 2 ^ 32
    → uint32 (n / 2 ^ 24 % 256) (n / 2 ^ 16 % 256) (n / 2 ^ 8 % 256) (n % 256) ≡ n
unfolding uint32
put_uint32_lem n small = omega arith

-- A payload whose length is below 2 ^ 32 and within the bound is read back from its envelope.
pub decode-encode_connect_message :
    (payload : Bytes) (maximum : ℕ)
    → 0 < maximum
    → length payload ≤ maximum
    → length payload < 2 ^ 32
    → decode_connect_request (encode_connect_message payload) maximum ≡ ok payload
unfolding decode_connect_request encode_connect_message put_uint32 request_flag decode_sized
decode-encode_connect_message payload zero pos fits small = absurd (omega arith)
decode-encode_connect_message payload (suc maximum) pos fits small =
    rw (put_uint32_lem (length payload) small) (ground arith)

take-append_length : (a b : Bytes) → take (length a) (a ++ b) ≡ a
take-append_length [] b = refl
take-append_length (x ∷ a) b = ap (◌∷◌ x) (take-append_length a b)

-- One message is taken off a stream, and the bytes behind it are left.
pub read-encode_connect_message :
    (payload rest : Bytes) (maximum : ℕ)
    → 0 < maximum
    → length payload ≤ maximum
    → length payload < 2 ^ 32
    → read_connect_message (encode_connect_message payload ++ rest) maximum ≡ ok (0, payload, rest)
unfolding read_connect_message encode_connect_message put_uint32 stream_flag
read-encode_connect_message payload rest zero pos fits small = absurd (omega arith)
read-encode_connect_message payload rest (suc maximum) pos fits small =
    rw (put_uint32_lem (length payload) small) (
      rw (take-append_length payload rest)
        (rw (drop-append_length payload rest) (ground (arith, length-append payload rest))))
