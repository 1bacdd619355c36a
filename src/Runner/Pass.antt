-- ===== src/Runner/Pass.antt =====
-- `runProviderPass` of internal/agent/runner.go: the events of one provider stream.
use cursor_cli_byok.Base.{
  ℕ, Bool, false, not, ◌||◌, Option, none, some, List, [], ◌∷◌, ◌++◌, Bytes, Result, ok, err, Error,
  new, wrap, ◌==◌, leb, if◌then◌else◌,
}
use cursor_cli_byok.Go.Strings.{is_empty, trim_space}
use cursor_cli_byok.Provider.{
  ℤ, pos, negsuc, ToolCall, ToolCallDelta, assistant, Usage, Event, unknown, text_delta,
  reasoning_delta, tool_call_delta, usage, Request, validate_event, validate_request,
}
use cursor_cli_byok.Runner.Events.{Log, Environment, AgentEvent}

-- `providerToolAccumulator`
pub record Accumulator : Type 0 where
  pub id : Bytes
  pub name : Bytes
  pub arguments : Bytes
  pub done : Bool

abbrev pub new_accumulator : Accumulator
new_accumulator = record { id = []; name = []; arguments = []; done = false }

abbrev pub no_provider_usage : Usage
no_provider_usage = record {
  input_tokens = pos 0;
  output_tokens = pos 0;
  cache_read_tokens = pos 0;
  cache_write_tokens = pos 0;
}

-- The variables that the callback captures, and the events emitted so far.
pub record PassState : Type 0 where
  pub text : Bytes
  pub tool_calls : List (ℕ × Accumulator)
  pub usage : Usage
  pub callback_error : Option Error
  pub log : Log

-- `if delta.X != "" { accumulator.x = delta.X }`
abbrev or_kept : Bytes → Bytes → Bytes
or_kept [] kept = kept
or_kept (b ∷ new_value) kept = b ∷ new_value

unfoldable pub accumulate : ToolCallDelta → Accumulator → Accumulator
accumulate delta a = record {
  id = or_kept delta.id a.id;
  name = or_kept delta.name a.name;
  arguments = a.arguments ++ delta.arguments_delta;
  done = a.done || delta.done;
}

-- `toolCalls[index]`, made where it is missing
unfoldable pub update_call :
    ℕ → (Accumulator → Accumulator) → List (ℕ × Accumulator) → List (ℕ × Accumulator)
update_call index f [] = (index, f new_accumulator) ∷ []
update_call index f ((i, a) ∷ calls) =
    if i == index then (i, f a) ∷ calls else (i, a) ∷ update_call index f calls

-- A validated index is not negative.
abbrev index_of : ℤ → ℕ
index_of (pos n) = n
index_of (negsuc n) = 0

module _ (env : Environment) where
  -- `callbackError = emit(...)`
  emit_into : AgentEvent → PassState → PassState
  emit_into event st = record st {
    callback_error = env.emit st.log event;
    log = st.log ++ event ∷ [];
  }

  -- The switch of the callback, on a valid event.
  unfoldable pub accept : Event → PassState → PassState
  unfolding emit_into accumulate
  accept (text_delta t) st = emit_into (AgentEvent.text_delta t) (record st { text = st.text ++ t })
  accept (reasoning_delta t) st = emit_into (AgentEvent.reasoning_delta t) st
  accept (usage u) st = record st { usage = u }
  accept (tool_call_delta delta) st = record st {
    tool_calls = update_call (index_of delta.index) (accumulate delta) st.tool_calls;
  }
  accept unknown st = record st {
    callback_error = some (new "execute agent turn: provider event is unsupported");
  }

  -- The callback. After an error it does nothing but answer with it.
  unfoldable pub receive : Event → PassState → PassState
  receive event st = elim st.callback_error [
    | some e ↦ st
    | none ↦ elim (validate_event event) [
      | err e ↦ record st { callback_error = some (wrap "execute agent turn" e) }
      | ok _ ↦ accept event st
    ]
  ]

  unfoldable pub receive_all : List Event → PassState → PassState
  receive_all [] st = st
  receive_all (event ∷ events) st = receive_all events (receive event st)

-- `sort.Ints`, by the entries' indexes
insert_call : ℕ × Accumulator → List (ℕ × Accumulator) → List (ℕ × Accumulator)
insert_call e [] = e ∷ []
insert_call e (f ∷ calls) = if leb e.0 f.0 then e ∷ f ∷ calls else f ∷ insert_call e calls

unfoldable pub sort_calls : List (ℕ × Accumulator) → List (ℕ × Accumulator)
unfolding insert_call
sort_calls [] = []
sort_calls (e ∷ calls) = insert_call e (sort_calls calls)

-- The last loop, over the calls in the order of their indexes.
unfoldable pub complete_calls : Bytes → List (ℕ × Accumulator) → Result (List ToolCall)
complete_calls model [] = ok []
complete_calls model ((index, a) ∷ calls) =
    let candidate : ToolCall = record {
      id = trim_space a.id;
      name = trim_space a.name;
      arguments = a.arguments;
    } in
    let validation : Request = record {
      model = model;
      messages =
          record { role = assistant; content = []; tool_calls = candidate ∷ []; tool_call_id = [] }
          ∷ [];
      tools = [];
    } in
    if not a.done || (is_empty candidate.id || is_empty candidate.name)
    then err (new "execute agent turn: provider tool call is incomplete")
    else elim (validate_request validation) [
      | err e ↦ err (wrap "execute agent turn" e)
      | ok _ ↦ elim (complete_calls model calls) [ err e ↦ err e | ok rest ↦ ok (candidate ∷ rest) ]
    ]

-- `providerPassResult`
pub record PassResult : Type 0 where
  pub text : Bytes
  pub tool_calls : List ToolCall
  pub usage : Usage

-- What follows the stream: the callback's error, the stream's, or the calls.
unfoldable pub finish_pass : Environment → Bytes → Option Error → PassState → Result PassResult
finish_pass env model stream_error st = elim st.callback_error [
  | some e ↦ err e
  | none ↦ elim stream_error [
    | some e ↦ elim (env.ctx_err 2 st.log) [
      | some c ↦ err c
      | none ↦ err (wrap "execute agent turn: provider stream" e)
    ]
    | none ↦ elim (complete_calls model (sort_calls st.tool_calls)) [
      | err e ↦ err e
      | ok calls ↦ ok (record { text = st.text; tool_calls = calls; usage = st.usage })
    ]
  ]
]

-- `runProviderPass`, the stream's events and error being those of the environment in this pass.
unfoldable pub run_provider_pass : Environment → ℕ → Request → Log → Result PassResult × Log
run_provider_pass env pass request log =
    let st = receive_all env (env.stream pass request).0 (record {
      text = [];
      tool_calls = [];
      usage = no_provider_usage;
      callback_error = none;
      log = log;
    }) in
    (finish_pass env request.model (env.stream pass request).1 st, st.log)
