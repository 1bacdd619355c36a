-- ===== src/Provider/Tests.antt =====
-- Validation on concrete requests.
use cursor_cli_byok.Provider.Validity.{IsRequest, validate_request_iff}
use cursor_cli_byok.Base.{◌≡◌, ◌↔◌, refl, [], ◌∷◌, ok, err, new}
use cursor_cli_byok.Go.Strings.{text, trim_space, has_control, same}
use cursor_cli_byok.Go.Json
use cursor_cli_byok.Provider.{
  Tool, Request, Message, user, is_tool_name, validate_request, validate_as, validate_message,
  validate_messages, validate_tools, valid_bounded_text, valid_json_object, contains,
}

abbrev pub read_tool : Tool
read_tool = record { name = text "Read"; description = []; parameters = text "{}" }

abbrev pub hello : Message
hello = record { role = user; content = text "hi"; tool_calls = []; tool_call_id = [] }

abbrev pub small_request : Request
small_request = record { model = text "m"; messages = hello ∷ []; tools = read_tool ∷ [] }

pub small_request_fits : validate_request small_request ≡ ok tt
unfolding validate_request validate_message validate_as validate_messages validate_tools
    valid_bounded_text valid_json_object is_tool_name contains text trim_space has_control same
    Json.valid Json.first_is_brace
small_request_fits = refl

twice_refused :
    validate_request (record small_request { tools = read_tool ∷ read_tool ∷ [] })
    ≡ err (new "validate provider request: duplicate tool name")
unfolding validate_request validate_message validate_as validate_messages validate_tools
    valid_bounded_text valid_json_object is_tool_name contains text trim_space has_control same
    Json.valid Json.first_is_brace
twice_refused = refl

validate_request_iff_example : (validate_request small_request ≡ ok tt) ↔ IsRequest small_request
validate_request_iff_example = validate_request_iff small_request
