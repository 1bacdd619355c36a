-- ===== src/Runner/Execute.antt =====
-- `Runner.Execute` of internal/agent/runner.go. The receiver, the context and the callback are
-- given (they are not nil); the rounds are the sixteen of the loop.
use cursor_cli_byok.Base.{
  ℕ, zero, suc, ◌-◌, true, not, none, some, List, [], ◌∷◌, ◌++◌, map, Bytes, Result, Outcome, ok,
  err, Error, new, wrap, map_err, if◌then◌else◌,
}
use cursor_cli_byok.Go.Strings.{same, is_empty}
use cursor_cli_byok.Go.Table.{lookup}
use cursor_cli_byok.Provider.{
  ToolCall, Message, user, assistant, tool, Tool, Request, contains, validate_request, Usage,
}
use cursor_cli_byok.Conversation.{Registry, acquire, release, append_turn, messages}
use cursor_cli_byok.Runner.Int64.{◌+ℤ◌}
use cursor_cli_byok.Runner.Events.{
  RunRequest, ToolResult, TokenUsage, no_usage, Log, Environment, tool_call, usage,
}
use cursor_cli_byok.Runner.Emits.{Emits, pure, fail, lift, emit, ◌>>=◌}
use cursor_cli_byok.Runner.Pass.{PassResult, run_provider_pass}
use cursor_cli_byok.Runner.Tools.{merge_run_tools, valid_run_identifier, validate_run_request}

unfoldable pub add_usage : TokenUsage → Usage → TokenUsage
add_usage total pass = record {
  input_tokens = total.input_tokens +ℤ pass.input_tokens;
  output_tokens = total.output_tokens +ℤ pass.output_tokens;
  cache_read_tokens = total.cache_read_tokens +ℤ pass.cache_read_tokens;
  cache_write_tokens = total.cache_write_tokens +ℤ pass.cache_write_tokens;
}

-- What the loops of a turn change: the messages of the turn, and the IDs of the calls delivered.
pub record TurnState : Type 0 where
  pub turn_messages : List Message
  pub delivered : List Bytes

abbrev pub tool_message : ToolCall → ToolResult → Message
tool_message call result = record {
  role = tool;
  content = result.content;
  tool_calls = [];
  tool_call_id = call.id;
}

abbrev pub not_offered : Error
not_offered = new "execute agent turn: provider requested a tool that was not offered"

abbrev pub repeated_id : Error
repeated_id = new "execute agent turn: provider repeated a tool call ID"

abbrev pub other_result : Error
other_result = new "execute agent turn: tool result call ID does not match"

module _ (env : Environment) (allowed : List Bytes) where
  -- One call: the two checks, the event, the wait for the result, and the result's message.
  unfoldable pub run_call : ToolCall → TurnState → Emits TurnState
  run_call call st =
      if not (contains call.name allowed)
      then fail not_offered
      else if contains call.id st.delivered
      then fail repeated_id
      else emit env (tool_call call) >>= λ _. (λ log. (env.await log call, log)) >>= λ result.
          if not (same result.call_id call.id)
          then fail other_result
          else pure (record {
            turn_messages = st.turn_messages ++ tool_message call result ∷ [];
            delivered = call.id ∷ st.delivered;
          })

  -- `for _, call := range pass.toolCalls`
  unfoldable pub run_calls : List ToolCall → TurnState → Emits TurnState
  run_calls [] st = pure st
  run_calls (call ∷ calls) st = run_call call st >>= λ st'. run_calls calls st'

abbrev pub assistant_message : PassResult → Message
assistant_message pass = record {
  role = assistant;
  content = pass.text;
  tool_calls = pass.tool_calls;
  tool_call_id = [];
}

-- What a turn works with once the run is resolved.
pub record Resolved : Type 0 where
  pub upstream_model : Bytes
  pub tools : List Tool
  pub base_messages : List Message

abbrev pub allowed_names : Resolved → List Bytes
allowed_names r = map (λ (t : Tool). t.name) r.tools

-- `provider.Request` of a pass.
abbrev pub pass_request : Resolved → TurnState → Request
pass_request r st = record {
  model = r.upstream_model;
  messages = r.base_messages ++ st.turn_messages;
  tools = r.tools;
}

-- The end of a turn, or its next pass.
abbrev pub Continuation : Type 0
Continuation = TurnState → TokenUsage → Emits (List Message × TokenUsage)

-- The rest of a round, on the calls of the pass.
unfoldable pub after_pass :
    Environment
    → Resolved
    → TurnState
    → TokenUsage
    → Continuation
    → List ToolCall
    → PassResult
    → Emits (List Message × TokenUsage)
after_pass env r st total go [] pass =
    if is_empty pass.text
    then fail (new "execute agent turn: provider returned no assistant text")
    else pure (st.turn_messages ++ assistant_message pass ∷ [], add_usage total pass.usage)
after_pass env r st total go (_ ∷ _) pass =
    run_calls env (allowed_names r) pass.tool_calls
      (record st { turn_messages = st.turn_messages ++ assistant_message pass ∷ [] })
    >>= λ st'. go st' (add_usage total pass.usage)

-- The loop over the passes, with the rounds that are left: the messages of the finished turn and
-- the usage of all passes. The source's `appendTurnLocked` and last `emit` follow in `end_turn`.
unfoldable pub run_passes : Environment → Resolved → ℕ → Continuation
run_passes env r zero st total =
    fail (new "execute agent turn: provider exceeded the tool continuation limit")
run_passes env r (suc rounds) st total =
    lift (map_err (wrap "execute agent turn") (validate_request (pass_request r st))) >>= λ _.
    run_provider_pass env (16 - suc rounds) (pass_request r st) >>= λ pass.
    after_pass env r st total (run_passes env r rounds) pass.tool_calls pass

abbrev pub user_message : RunRequest → Message
user_message run = record {
  role = user;
  content = run.user_text;
  tool_calls = [];
  tool_call_id = [];
}

-- The part of `Execute` between the acquisition and the loop.
unfoldable pub resolve : Environment → List Tool → RunRequest → List Message → Emits Resolved
resolve env static run base log = (
  elim (env.ctx_err 1 log) [
    | some e ↦ err e
    | none ↦ elim (merge_run_tools static run.mcp_tools) [
      | err e ↦ err (wrap "execute agent turn" e)
      | ok tools ↦ elim (env.resolve_model run.model_id) [
        | err e ↦ err (wrap "execute agent turn: resolve model" e)
        | ok upstream ↦
            if not (valid_run_identifier upstream)
            then err (new "execute agent turn: resolved upstream model is invalid")
            else elim (env.new_streamer run.model_id) [
              | err e ↦ err (wrap "execute agent turn: create provider client" e)
              | ok none ↦ err (new "execute agent turn: provider client is unavailable")
              | ok (some _) ↦
                  ok (record { upstream_model = upstream; tools = tools; base_messages = base })
            ]
      ]
    ]
  ],
  log,
)

-- The turn of a run that holds its conversation, up to the two effects that end it.
unfoldable pub run_turn :
    Environment → List Tool → RunRequest → List Message → Emits (List Message × TokenUsage)
run_turn env static run base = resolve env static run base >>= λ r.
    run_passes env r 16 (record { turn_messages = user_message run ∷ []; delivered = [] }) no_usage

-- `messagesLocked` of the conversation that is held.
unfoldable pub history : Bytes → Registry → List Message
history id registry = elim (lookup id registry.conversations) [
  | none ↦ []
  | some c ↦ messages c.turns
]

-- `appendTurnLocked` on success, and the last event; the error of that event is the result.
unfoldable pub end_turn :
    Environment
    → Bytes
    → Result (List Message × TokenUsage)
    → Registry
    → Log
    → Outcome × Registry × Log
end_turn env id (err e) registry log = (err e, registry, log)
end_turn env id (ok (turn, total)) registry log =
    let answer = emit env (usage total) log in (answer.0, append_turn id turn registry, answer.1)

-- The rest of `Execute` once the conversation is acquired, with the deferred release.
unfoldable pub execute_held :
    Environment → List Tool → RunRequest → Registry → Log → Outcome × Registry × Log
execute_held env static run held log =
    let turn = run_turn env static run (history run.conversation_id held) log in
    let ended = end_turn env run.conversation_id turn.0 held turn.1 in
    (ended.0, release run.conversation_id ended.1, ended.2)

-- `acquireConversation` creates what is missing, so the third error is never returned.
abbrev pub no_conversation : Error
no_conversation = new "execute agent turn: no conversation"

-- `Runner.Execute`: the result, the registry after the release, and the events.
unfoldable pub execute :
    Environment → List Tool → RunRequest → Registry → Log → Outcome × Registry × Log
execute env static run registry log = elim (validate_run_request run) [
  | err e ↦ (err e, registry, log)
  | ok _ ↦ elim (env.ctx_err 0 log) [
    | some e ↦ (err e, registry, log)
    | none ↦ elim (acquire run.conversation_id true registry) [
      | none ↦ (err no_conversation, registry, log)
      | some held ↦ execute_held env static run held log
    ]
  ]
]
