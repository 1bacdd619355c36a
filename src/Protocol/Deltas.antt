-- ===== src/Protocol/Deltas.antt =====
-- The encoders of internal/protocol/agent.go: the updates of a running turn.
use cursor_cli_byok.Base.{ℕ, ◌-◌, ◌%◌, ◌^◌, ◌||◌, [], Bytes, Result, ok, new, ◌>>◌, refuse_if}
use cursor_cli_byok.Go.Strings.{is_empty}
use cursor_cli_byok.Provider.{ℤ, pos, negsuc, is_negative}
use cursor_cli_byok.Runner.Events.{TokenUsage}
use cursor_cli_byok.Wire.Protowire.{Protowire}
use cursor_cli_byok.Wire.Encode.{append_string, append_message, append_varint}

-- `uint64(x)` of an int64
abbrev pub to_uint64 : ℤ → ℕ
to_uint64 (pos n) = n % 2 ^ 64
to_uint64 (negsuc n) = 2 ^ 64 - 1 - n % 2 ^ 64

module _ ⦃w : Protowire⦄ where
  -- `EncodeTextDelta`
  unfoldable pub encode_text_delta : Bytes → Result Bytes
  encode_text_delta t = do
    refuse_if (is_empty t) (new "encode text delta: text is required")
    ok (append_message [] 1 (append_message [] 1 (append_string [] 1 t)))

  -- `EncodeThinkingDelta`
  unfoldable pub encode_thinking_delta : Bytes → Result Bytes
  encode_thinking_delta t = do
    refuse_if (is_empty t) (new "encode thinking delta: text is required")
    ok (append_message [] 1 (append_message [] 4 (append_string [] 1 t)))

  -- `EncodeHeartbeat`, which never fails
  unfoldable pub encode_heartbeat : Bytes
  encode_heartbeat = append_message [] 1 (append_message [] 13 [])

  unfoldable pub encode_usage : TokenUsage → Bytes
  encode_usage usage =
      let ended = append_varint [] 1 (to_uint64 usage.input_tokens) in
      let ended = append_varint ended 2 (to_uint64 usage.output_tokens) in
      let ended = append_varint ended 3 (to_uint64 usage.cache_read_tokens) in
      append_varint ended 4 (to_uint64 usage.cache_write_tokens)

  -- `EncodeTurnEnded`
  unfoldable pub encode_turn_ended : TokenUsage → Result Bytes
  encode_turn_ended usage = do
    refuse_if
        (is_negative usage.input_tokens
          || (is_negative usage.output_tokens
              || (is_negative usage.cache_read_tokens || is_negative usage.cache_write_tokens)))
        (new "encode turn ended: token counts must not be negative")
    ok (append_message [] 1 (append_message [] 14 (encode_usage usage)))
