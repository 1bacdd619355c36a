-- ===== src/Protocol/Client.antt =====
-- The client messages of internal/protocol/agent.go. `marshal` is `json.Marshal`, `decode_hex` is
-- `hex.DecodeString`.
pub mod Runs
use cursor_cli_byok.Base.{
  ℕ, ◌%◌, ◌^◌, true, false, not, ◌&&◌, Option, none, some, List, [], ◌∷◌, Bytes, Result, Outcome,
  ok, err, Error, new, wrap, ◌>>=◌, ◌>>◌, refuse_if, map_err, ◌==◌, if◌then◌else◌,
}
use cursor_cli_byok.Go.Strings.{is_empty, trim_space}
use cursor_cli_byok.Runner.Events.{RunRequest}
use cursor_cli_byok.Wire.Protowire.{Protowire}
use cursor_cli_byok.Wire.Fields.{
  WireField, decode_wire_fields, last_bytes_field, last_varint_field, has_bytes_field, or_empty,
  or_zero,
}
use cursor_cli_byok.Session.{ExecResultIdentity}
use cursor_cli_byok.Protocol.Text.{valid_identifier}
use cursor_cli_byok.Protocol.Schema.{JsonValue, malformed}
use cursor_cli_byok.Protocol.Mcp.{decode_mcp_tools}

-- `ClientMessageKind` without `ClientMessageUnknown`, which no decoded message has.
pub data ClientMessageKind : Type 0 where
  run exec kv conversation_action exec_control interaction_response heartbeat prewarm :
      ClientMessageKind

pub record ClientMessage : Type 0 where
  pub kind : ClientMessageKind
  pub run_request : Option RunRequest
  pub raw : Bytes

pub record BidiAppendRequest : Type 0 where
  pub request_id : Bytes
  pub append_sequence : ℕ
  pub message : ClientMessage

-- The candidates of `decodeClientMessage`, in their order.
abbrev pub candidates : List (ℕ × ClientMessageKind)
candidates =
    (1, run)
    ∷ (2, exec)
    ∷ (3, kv)
    ∷ (4, conversation_action)
    ∷ (5, exec_control)
    ∷ (6, interaction_response)
    ∷ (7, heartbeat)
    ∷ (8, prewarm)
    ∷ []

-- The first candidate whose field is there, and the field's value.
unfoldable pub first_candidate :
    List WireField → List (ℕ × ClientMessageKind) → Option (ClientMessageKind × Bytes)
first_candidate fields [] = none
first_candidate fields ((number, kind) ∷ rest) = elim (last_bytes_field fields number) [
  | some value ↦ some (kind, value)
  | none ↦ first_candidate fields rest
]

-- `required(...)`: a field that must be there
abbrev pub required {ℓ} : {A : Type ℓ} → Error → Option A → Result A
required e none = err e
required e (some a) = ok a

abbrev pub or_else : Option Bytes → Option Bytes → Option Bytes
or_else (some a) other = some a
or_else none other = other

module _ ⦃w : Protowire⦄ where
  -- `DecodeBidiRequestID`
  unfoldable pub decode_bidi_request_id : Bytes → Result Bytes
  decode_bidi_request_id payload = do
    fields ← map_err (wrap "request_id is malformed") (decode_wire_fields payload)
    value ← required (new "request_id is required") (last_bytes_field fields 1)
    refuse_if (not (valid_identifier (trim_space value))) (new "request_id is invalid")
    ok (trim_space value)

  -- `validateBackgroundTaskCompletionAction`
  unfoldable pub validate_background_task_completion_action : Bytes → Outcome
  validate_background_task_completion_action payload = do
    fields ←
        map_err (wrap "run request background completion is malformed") (decode_wire_fields payload)
    completion ←
        required (new "run request background completion is required") (last_bytes_field fields 1)
    completion_fields ←
        map_err (wrap "run request background completion is malformed")
          (decode_wire_fields completion)
    task_id ←
        required (new "run request background completion task ID is required")
          (last_bytes_field completion_fields 1)
    refuse_if (not (valid_identifier (trim_space task_id)))
        (new "run request background completion task ID is required")

  -- The conversation and the model of `decodeRunRequest`.
  unfoldable pub decode_run_names : List WireField → Result (Bytes × Bytes)
  decode_run_names fields = do
    conversation_id ←
        required (new "run request conversation_id is required") (last_bytes_field fields 5)
    refuse_if (not (valid_identifier (trim_space conversation_id)))
        (new "run request conversation_id is required")
    model_message ←
        required (new "run request model is required")
          (or_else (last_bytes_field fields 9) (last_bytes_field fields 3))
    model_fields ←
        map_err (wrap "run request model is malformed") (decode_wire_fields model_message)
    model_id ← required (new "run request model is required") (last_bytes_field model_fields 1)
    refuse_if (not (valid_identifier (trim_space model_id))) (new "run request model is required")
    ok (trim_space conversation_id, trim_space model_id)

  -- The text and the ID of the user's message, from the user action.
  unfoldable pub decode_user_message : Bytes → Result (Bytes × Bytes)
  decode_user_message action = do
    action_fields ←
        map_err (wrap "run request user action is malformed") (decode_wire_fields action)
    message ←
        required (new "run request user message is required") (last_bytes_field action_fields 1)
    fields ← map_err (wrap "run request user message is malformed") (decode_wire_fields message)
    text ← required (new "run request user message text is required") (last_bytes_field fields 1)
    refuse_if (is_empty (trim_space text)) (new "run request user message text is required")
    ok (text, trim_space (or_empty (last_bytes_field fields 2)))

  module _ (marshal : JsonValue → Option Bytes) where
    -- The rest of `decodeRunRequest`, on the user action and the background completion.
    unfoldable pub decode_run_action :
        List WireField → Bytes × Bytes → Option Bytes → Option Bytes → Result RunRequest
    decode_run_action fields (conversation_id, model_id) (some user) (some completion) =
        err (new "run request action is ambiguous")
    decode_run_action fields (conversation_id, model_id) none (some completion) = do
      validate_background_task_completion_action completion
      mcp_tools ← decode_mcp_tools marshal fields
      ok (record {
        conversation_id = conversation_id;
        model_id = model_id;
        user_text = [];
        user_message_id = [];
        metadata_only = true;
        mcp_tools_present = has_bytes_field fields 4;
        mcp_tools = mcp_tools;
      })
    decode_run_action fields (conversation_id, model_id) none none =
        err (new "run request user message is required")
    decode_run_action fields (conversation_id, model_id) (some user) none = do
      (text, message_id) ← decode_user_message user
      mcp_tools ← decode_mcp_tools marshal fields
      ok (record {
        conversation_id = conversation_id;
        model_id = model_id;
        user_text = text;
        user_message_id = message_id;
        metadata_only = false;
        mcp_tools_present = has_bytes_field fields 4;
        mcp_tools = mcp_tools;
      })

    -- `decodeRunRequest`
    unfoldable pub decode_run_request : Bytes → Result RunRequest
    decode_run_request payload = do
      fields ← map_err (wrap "run request is malformed") (decode_wire_fields payload)
      names ← decode_run_names fields
      action ← required (new "run request user message is required") (last_bytes_field fields 2)
      action_fields ← map_err (wrap "run request action is malformed") (decode_wire_fields action)
      decode_run_action fields names (last_bytes_field action_fields 1)
          (last_bytes_field action_fields 12)

    -- What a candidate that was found makes of the message.
    unfoldable pub decode_candidate : Bytes → ClientMessageKind × Bytes → Result ClientMessage
    decode_candidate raw (run, value) = do
      request ← decode_run_request value
      ok (record { kind = run; run_request = some request; raw = raw })
    decode_candidate raw (kind, value) = ok (record { kind = kind; run_request = none; raw = raw })

    -- `decodeClientMessage`, `DecodeAgentClientMessage`
    unfoldable pub decode_client_message : Bytes → Result ClientMessage
    decode_client_message payload = do
      fields ← map_err (wrap "client message is malformed") (decode_wire_fields payload)
      found ←
          required (new "client message type is unsupported") (first_candidate fields candidates)
      decode_candidate payload found

    module _ (decode_hex : Bytes → Option Bytes) where
      -- The client payload of `DecodeBidiAppendRequest`: the binary field, or the legacy text.
      unfoldable pub client_payload : List WireField → Result Bytes
      client_payload fields = elim (last_bytes_field fields 4) [
        | some binary ↦ ok binary
        | none ↦
            if is_empty (or_empty (last_bytes_field fields 1))
            then err (new "decode bidi append: client data is required")
            else required (new "decode bidi append: client data is not valid hex")
                (decode_hex (or_empty (last_bytes_field fields 1)))
      ]

      -- `DecodeBidiAppendRequest`
      unfoldable pub decode_bidi_append_request : Bytes → Result BidiAppendRequest
      decode_bidi_append_request payload = do
        fields ←
            map_err (wrap "decode bidi append: malformed protobuf") (decode_wire_fields payload)
        id_message ←
            required (new "decode bidi append: request_id is required") (last_bytes_field fields 2)
        request_id ← map_err (wrap "decode bidi append") (decode_bidi_request_id id_message)
        data_payload ← client_payload fields
        refuse_if (is_empty data_payload) (new "decode bidi append: client data is required")
        message ← map_err (wrap "decode bidi append") (decode_client_message data_payload)
        ok (record {
          request_id = request_id;
          append_sequence = or_zero (last_varint_field fields 3);
          message = message;
        })

  -- `execClientPayload` of internal/protocol/tool_bridge.go
  unfoldable pub exec_client_payload : Bytes → Result Bytes
  exec_client_payload raw = do
    fields ← map_err (wrap "decode tool result: malformed protobuf") (decode_wire_fields raw)
    required (new "decode tool result: exec message is required") (last_bytes_field fields 2)

  -- `DecodeExecResultIdentity` of internal/protocol/tool_bridge.go, on an exec message.
  unfoldable pub decode_exec_result_identity : ClientMessage → Result ExecResultIdentity
  decode_exec_result_identity message = do
    is_exec message.kind
    payload ← exec_client_payload message.raw
    fields ←
        malformed (new "decode exec result identity: malformed exec message")
          (decode_wire_fields payload)
    let message_id = or_zero (last_varint_field fields 1) % 2 ^ 32
    let exec_id = trim_space (or_empty (last_bytes_field fields 15))
    refuse_if ((message_id == 0) && is_empty exec_id)
        (new "decode exec result identity: message ID or exec ID is required")
    ok (record { message_id = message_id; exec_id = exec_id })
    where
      is_exec : ClientMessageKind → Outcome
      is_exec exec = ok tt
      is_exec _ = err (new "decode exec result identity: client message is not an exec result")
