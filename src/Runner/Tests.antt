-- ===== src/Runner/Tests.antt =====
-- A turn that calls a tool once and then answers.
use cursor_cli_byok.Base.{
  ℕ, zero, suc, ◌≡◌, refl, true, false, none, some, List, [], ◌∷◌, ◌++◌, ok, map, All,
}
use cursor_cli_byok.Go.Json
use cursor_cli_byok.Go.Strings.{text, trim_space, has_control, same}
use cursor_cli_byok.Conversation.{Registry}
use cursor_cli_byok.Provider.{
  assistant, tool, Tool, ToolCall, Message, Event, pos, is_tool_name, validate_request,
  validate_event, validate_as, validate_message, validate_messages, validate_tools, validate_calls,
  valid_bounded_text, valid_json_object, contains,
}
use cursor_cli_byok.Provider.Validity.{IsDistinct}
use cursor_cli_byok.Runner.Events.{Environment, RunRequest, AgentEvent, Log, tool_call, no_usage}
use cursor_cli_byok.Runner.Emits.{emit}
use cursor_cli_byok.Runner.Int64.{◌+ℤ◌}
use cursor_cli_byok.Runner.Pass.{
  accept, accumulate, update_call, receive, receive_all, sort_calls, complete_calls, finish_pass,
  run_provider_pass,
}
use cursor_cli_byok.Runner.Tools.{merge_run_tools, append_dynamic, valid_run_identifier}
use cursor_cli_byok.Runner.Execute.{
  add_usage, run_call, run_calls, after_pass, run_passes, resolve, run_turn, user_message, execute,
}
use cursor_cli_byok.Runner.Shape.{IsReply, run_turn-IsReply}
use cursor_cli_byok.Runner.Delivery.{calls_onto, call_id, offered_names, run_turn-IsLegal}
use cursor_cli_byok.Runner.History.{Ending, execute_all_or_nothing}

abbrev read_tool : Tool
read_tool = record { name = text "Read"; description = []; parameters = text "{}" }

abbrev read_call : ToolCall
read_call = record { id = text "c1"; name = text "Read"; arguments = text "{}" }

-- The first pass calls `Read`, the others answer.
abbrev script : ℕ → List Event
script zero =
    Event.tool_call_delta (record {
      index = pos 0;
      id = text "c1";
      name = text "Read";
      arguments_delta = text "{}";
      done = true;
    })
    ∷ []
script (suc _) = Event.text_delta (text "done") ∷ []

abbrev world : Environment
world = record {
  resolve_model = λ model. ok model;
  new_streamer = λ model. ok (some 0);
  stream = λ pass request. (script pass, none);
  emit = λ log event. none;
  await = λ log call. ok (record { call_id = call.id; content = text "x"; is_error = false });
  ctx_err = λ point log. none;
}

abbrev run : RunRequest
run = record {
  conversation_id = text "k";
  model_id = text "m";
  user_text = text "hi";
  user_message_id = [];
  metadata_only = false;
  mcp_tools_present = false;
  mcp_tools = [];
}

abbrev reply : List Message
reply =
    record { role = assistant; content = []; tool_calls = read_call ∷ []; tool_call_id = [] }
    ∷ record { role = tool; content = text "x"; tool_calls = []; tool_call_id = text "c1" }
    ∷ record { role = assistant; content = text "done"; tool_calls = []; tool_call_id = [] }
    ∷ []

run_turn_answers : run_turn world (read_tool ∷ []) run [] [] ≡ (
  ok (user_message run ∷ reply, no_usage),
  tool_call read_call ∷ AgentEvent.text_delta (text "done") ∷ [],
)
unfolding run_turn resolve run_passes after_pass run_calls run_call emit add_usage run_provider_pass
    finish_pass receive_all receive accept accumulate update_call sort_calls complete_calls
    merge_run_tools append_dynamic valid_run_identifier validate_event validate_request
    validate_message validate_as validate_messages validate_tools validate_calls valid_bounded_text
    valid_json_object is_tool_name contains text trim_space has_control same Json.valid
    Json.first_is_brace ◌+ℤ◌
run_turn_answers = refl

run_turn-IsReply_example :
    (messages : List Message) × (user_message run ∷ reply ≡ user_message run ∷ messages)
    × IsReply messages
run_turn-IsReply_example = run_turn-IsReply world (read_tool ∷ []) run [] [] run_turn_answers

run_turn-IsLegal_example :
    (events : Log) × ((run_turn world (read_tool ∷ []) run [] []).1 ≡ [] ++ events)
    × All (λ c. contains c.name (offered_names (read_tool ∷ []) run) ≡ true) (calls_onto [] events)
    × IsDistinct (map call_id (calls_onto [] events))
run_turn-IsLegal_example = run_turn-IsLegal world (read_tool ∷ []) run [] []

abbrev empty_registry : Registry
empty_registry = record { max_turns = 2; max_conversations = 256; sequence = 0; conversations = [] }

execute_all_or_nothing_example :
    Ending run empty_registry
      (execute world (read_tool ∷ []) run empty_registry []).0
      (execute world (read_tool ∷ []) run empty_registry []).1
execute_all_or_nothing_example = execute_all_or_nothing world (read_tool ∷ []) run empty_registry []
