-- ===== src/Protocol/Connect/Tests.antt =====
-- Envelopes of concrete payloads.
use cursor_cli_byok.Base.{◌≡◌, refl, [], ◌∷◌, ◌++◌, ok, err, new, arith}
use cursor_cli_byok.Protocol.Connect.{
  encode_connect_message, decode_connect_request, decode_sized, request_flag, read_connect_message,
  uint32, put_uint32,
}
use cursor_cli_byok.Protocol.Connect.RoundTrip.{
  decode-encode_connect_message, read-encode_connect_message,
}

decode-encode_connect_message_example :
    decode_connect_request (encode_connect_message (7 ∷ 8 ∷ [])) 2 ≡ ok (7 ∷ 8 ∷ [])
decode-encode_connect_message_example =
    decode-encode_connect_message (7 ∷ 8 ∷ []) 2 (omega arith) (omega arith) (omega arith)

read-encode_connect_message_example :
    read_connect_message (encode_connect_message (7 ∷ 8 ∷ []) ++ 2 ∷ []) 4
    ≡ ok (0, 7 ∷ 8 ∷ [], 2 ∷ [])
read-encode_connect_message_example =
    read-encode_connect_message (7 ∷ 8 ∷ []) (2 ∷ []) 4 (omega arith) (omega arith) (omega arith)

-- A message above the bound is refused.
too_large :
    decode_connect_request (encode_connect_message (7 ∷ 8 ∷ [])) 1
    ≡ err (new "decode connect request: message is too large")
unfolding decode_connect_request encode_connect_message put_uint32 request_flag decode_sized uint32
too_large = refl
