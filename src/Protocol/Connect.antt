-- ===== src/Protocol/Connect.antt =====
-- internal/protocol/connect.go: the envelopes of the Connect protocol. Lengths are those of slices
-- in memory and stay below 2 ^ 64; `maximum` is an `int` that is not negative.
pub mod RoundTrip
pub mod Tests
use cursor_cli_byok.Base.{
  ℕ, zero, suc, ◌+◌, ◌*◌, ◌/◌, ◌%◌, ◌^◌, ◌-◌, ◌<◌, Bool, true, false, not, ◌&&◌, List, [], ◌∷◌,
  ◌++◌, Bytes, Result, Outcome, ok, err, Error, new, eof, ◌>>=◌, ◌>>◌, refuse_if, ltb, leb, ◌==◌,
  length, take, drop, if◌then◌else◌,
}

-- `connectEnvelopeHeaderBytes`
abbrev pub header_bytes : ℕ
header_bytes = 5

-- `binary.BigEndian.PutUint32(b, uint32(n))`
unfoldable pub put_uint32 : ℕ → Bytes
put_uint32 n = n / 2 ^ 24 % 256 ∷ n / 2 ^ 16 % 256 ∷ n / 2 ^ 8 % 256 ∷ n % 256 ∷ []

-- `EncodeConnectMessage`
unfoldable pub encode_connect_message : Bytes → Bytes
encode_connect_message payload = 0 ∷ (put_uint32 (length payload) ++ payload)

-- `binary.BigEndian.Uint32`
unfoldable pub uint32 : ℕ → ℕ → ℕ → ℕ → ℕ
uint32 a b c d = a * 2 ^ 24 + b * 2 ^ 16 + c * 2 ^ 8 + d

-- The switch on the flag of `DecodeConnectRequest`.
unfoldable pub request_flag : ℕ → Outcome
request_flag flag =
    if flag == 0
    then ok tt
    else if flag == 1
    then err (new "decode connect request: compressed messages are unsupported")
    else err (new "decode connect request: invalid message flag")

-- What `DecodeConnectRequest` does with the length of the header and the bytes behind it.
unfoldable pub decode_sized : ℕ → ℕ → Bytes → Result Bytes
decode_sized maximum message_length rest = do
  refuse_if (ltb maximum message_length) (new "decode connect request: message is too large")
  refuse_if (ltb (header_bytes + message_length) (header_bytes + length rest))
      (new "decode connect request: expected exactly one message")
  refuse_if (not (header_bytes + length rest == header_bytes + message_length))
      (new "decode connect request: envelope length")
  ok rest

-- `DecodeConnectRequest`
unfoldable pub decode_connect_request : Bytes → ℕ → Result Bytes
decode_connect_request body zero =
    err (new "decode connect request: maximum message size must be positive")
decode_connect_request (flag ∷ a ∷ b ∷ c ∷ d ∷ rest) (suc maximum) = do
  request_flag flag
  decode_sized (suc maximum) (uint32 a b c d) rest
decode_connect_request _ (suc maximum) =
    err (new "decode connect request: incomplete envelope header")

-- The tests on the flag of `ReadConnectMessage`.
unfoldable pub stream_flag : ℕ → Outcome
stream_flag flag = do
  refuse_if (flag % 2 == 1) (new "read connect message: compressed messages are unsupported")
  refuse_if (not (flag == 0) && not (flag == 2)) (new "read connect message: invalid envelope flag")

-- `ReadConnectMessage` on what is left of a stream that delivers all its bytes and then `io.EOF`:
-- the flag, the payload, and what is left then.
unfoldable pub read_connect_message : Bytes → ℕ → Result (ℕ × Bytes × Bytes)
read_connect_message stream zero =
    err (new "read connect message: maximum message size must be positive")
read_connect_message [] (suc maximum) = err eof
read_connect_message (flag ∷ a ∷ b ∷ c ∷ d ∷ rest) (suc maximum) = do
  stream_flag flag
  let message_length = uint32 a b c d
  refuse_if (ltb (suc maximum) message_length) (new "read connect message: message is too large")
  refuse_if (ltb (length rest) message_length)
      (new "read connect message: incomplete envelope body")
  ok (flag, take message_length rest, drop message_length rest)
read_connect_message (_ ∷ _) (suc maximum) =
    err (new "read connect message: incomplete envelope header")

-- The frame of `EncodeConnectEnd` around its JSON text.
unfoldable pub encode_connect_end_frame : Bytes → Bytes
encode_connect_end_frame encoded = 2 ∷ (put_uint32 (length encoded) ++ encoded)
