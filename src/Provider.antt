-- ===== src/Provider.antt =====
-- internal/provider/types.go: messages, tools, requests and stream events, and their validation.
pub mod Validity
pub mod Tests
use cursor_cli_byok.Base.{
  ℕ, zero, suc, String, Bool, true, false, not, ◌&&◌, ◌||◌, List, [], ◌∷◌, ◌==◌, ltb, leb, Bytes,
  Outcome, ok, err, Error, new, ◌>>=◌, ◌>>◌, refuse_if, if◌then◌else◌, length,
}
use cursor_cli_byok.Go.Strings.{text, same, is_empty, has_padding, has_control}
use cursor_cli_byok.Go.Json

-- `type Role string`: the four constants, and any other text.
pub data Role : Type 0 where
  system user assistant tool : Role
  other_role : Bytes → Role

pub record ToolCall : Type 0 where
  pub id : Bytes
  pub name : Bytes
  pub arguments : Bytes

pub record Message : Type 0 where
  pub role : Role
  pub content : Bytes
  pub tool_calls : List ToolCall
  pub tool_call_id : Bytes

pub record Tool : Type 0 where
  pub name : Bytes
  pub description : Bytes
  pub parameters : Bytes

pub record Request : Type 0 where
  pub model : Bytes
  pub messages : List Message
  pub tools : List Tool

-- `validBoundedText`
unfoldable pub valid_bounded_text : Bytes → ℕ → Bool
valid_bounded_text value maximum =
    not (is_empty value)
    && (leb (length value) maximum && (not (has_padding value) && not (has_control value)))

-- `validJSONObject`: a valid document unmarshals into a non-nil map if it is an object.
unfoldable pub valid_json_object : Bytes → Bool
valid_json_object value = Json.valid value && Json.first_is_brace value

-- `[A-Za-z0-9_-]`
is_tool_name_byte : ℕ → Bool
is_tool_name_byte c =
    (leb b'A' c && leb c b'Z')
    || ((leb b'a' c && leb c b'z') || ((leb b'0' c && leb c b'9') || (c == b'_' || c == b'-')))

all_tool_name_bytes : Bytes → Bool
all_tool_name_bytes [] = true
all_tool_name_bytes (c ∷ r) = is_tool_name_byte c && all_tool_name_bytes r

-- `toolNamePattern.MatchString`
unfoldable pub is_tool_name : Bytes → Bool
unfolding is_tool_name_byte all_tool_name_bytes
is_tool_name name = leb 1 (length name) && (leb (length name) 64 && all_tool_name_bytes name)

-- The loop of `validate` over the calls of an assistant message.
unfoldable pub validate_calls : List ToolCall → Outcome
validate_calls [] = ok tt
validate_calls (call ∷ calls) = do
  refuse_if (not (valid_bounded_text call.id 1024))
      (new "validate provider request: tool call ID is invalid")
  refuse_if (not (is_tool_name call.name))
      (new "validate provider request: tool call name is invalid")
  refuse_if (not (valid_json_object call.arguments))
      (new "validate provider request: tool call arguments must be a JSON object")
  validate_calls calls

abbrev pub any {ℓ} : {A : Type ℓ} → List A → Bool
any [] = false
any (_ ∷ _) = true

validate_text : Message → Outcome
validate_text message = do
  refuse_if (is_empty message.content)
      (new "validate provider request: message content is required")
  refuse_if (any message.tool_calls || not (is_empty message.tool_call_id))
      (new "validate provider request: message role has unsupported tool fields")
  ok tt

-- The switch of `validate` on the role.
unfoldable pub validate_as : Role → Message → Outcome
unfolding validate_text
validate_as system message = validate_text message
validate_as user message = validate_text message
validate_as assistant message = do
  refuse_if (is_empty message.content && not (any message.tool_calls))
      (new "validate provider request: assistant message must contain content or tool calls")
  refuse_if (not (is_empty message.tool_call_id))
      (new "validate provider request: assistant message must not contain tool_call_id")
  validate_calls message.tool_calls
validate_as tool message = do
  refuse_if (not (valid_bounded_text message.tool_call_id 1024))
      (new "validate provider request: tool_call_id is required")
  refuse_if (any message.tool_calls)
      (new "validate provider request: tool result must not contain tool calls")
  ok tt
validate_as (other_role _) message =
    err (new "validate provider request: message role is unsupported")

unfoldable pub validate_message : Message → Outcome
validate_message message = validate_as message.role message

unfoldable pub validate_messages : List Message → Outcome
validate_messages [] = ok tt
validate_messages (message ∷ messages) = validate_message message >> validate_messages messages

-- Membership in the `seen` maps of the program, which are sets of names.
unfoldable pub contains : Bytes → List Bytes → Bool
contains name [] = false
contains name (seen ∷ rest) = same seen name || contains name rest

unfoldable pub validate_tools : List Bytes → List Tool → Outcome
validate_tools seen [] = ok tt
validate_tools seen (t ∷ tools) = do
  refuse_if (not (is_tool_name t.name)) (new "validate provider request: tool name is invalid")
  refuse_if (contains t.name seen) (new "validate provider request: duplicate tool name")
  refuse_if (not (valid_json_object t.parameters))
      (new "validate provider request: tool parameters must be a JSON object")
  validate_tools (t.name ∷ seen) tools

-- `Request.Validate`
unfoldable pub validate_request : Request → Outcome
validate_request request = do
  refuse_if (not (valid_bounded_text request.model 1024))
      (new "validate provider request: model is required and must be valid")
  refuse_if (not (any request.messages))
      (new "validate provider request: at least one message is required")
  validate_messages request.messages
  validate_tools [] request.tools

-- `int` and `int64` values that may be negative.
pub data ℤ : Type 0 where
  pos : ℕ → ℤ
  negsuc : ℕ → ℤ

abbrev pub is_negative : ℤ → Bool
is_negative (pos _) = false
is_negative (negsuc _) = true

pub record ToolCallDelta : Type 0 where
  pub index : ℤ
  pub id : Bytes
  pub name : Bytes
  pub arguments_delta : Bytes
  pub done : Bool

pub record Usage : Type 0 where
  pub input_tokens : ℤ
  pub output_tokens : ℤ
  pub cache_read_tokens : ℤ
  pub cache_write_tokens : ℤ

-- `Event`: each kind with the fields that the program gives it; the kind `EventUnknown` and any
-- other number are `unknown`.
pub data Event : Type 0 where
  unknown : Event
  text_delta : Bytes → Event
  reasoning_delta : Bytes → Event
  tool_call_delta : ToolCallDelta → Event
  usage : Usage → Event

-- `Event.Validate`
unfoldable pub validate_event : Event → Outcome
validate_event unknown = err (new "validate provider event: event kind is unsupported")
validate_event (text_delta t) =
    refuse_if (is_empty t) (new "validate provider event: text delta is empty")
validate_event (reasoning_delta t) =
    refuse_if (is_empty t) (new "validate provider event: text delta is empty")
validate_event (tool_call_delta d) = do
  refuse_if (is_negative d.index) (new "validate provider event: tool call index is negative")
  refuse_if (is_empty d.id && (is_empty d.name && (is_empty d.arguments_delta && not d.done)))
      (new "validate provider event: tool call delta is empty")
validate_event (usage u) =
    refuse_if
      (is_negative u.input_tokens
        || (is_negative u.output_tokens
            || (is_negative u.cache_read_tokens || is_negative u.cache_write_tokens)))
      (new "validate provider event: token usage is negative")
