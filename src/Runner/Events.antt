-- ===== src/Runner/Events.antt =====
-- internal/agent/types.go and the request types of internal/protocol/agent.go, and what stands
-- around a turn: the provider, the event callback, the tool results and the context.
use cursor_cli_byok.Base.{ℕ, Bool, Option, List, Bytes, Result, Error}
use cursor_cli_byok.Provider.{ℤ, pos, ToolCall, Request, Event}

-- `protocol.MCPToolDefinition`
pub record McpToolDefinition : Type 0 where
  pub name : Bytes
  pub description : Bytes
  pub provider_identifier : Bytes
  pub tool_name : Bytes
  pub input_schema : Bytes

-- `protocol.RunRequest`
pub record RunRequest : Type 0 where
  pub conversation_id : Bytes
  pub model_id : Bytes
  pub user_text : Bytes
  pub user_message_id : Bytes
  pub metadata_only : Bool
  pub mcp_tools_present : Bool
  pub mcp_tools : List McpToolDefinition

-- `protocol.TokenUsage`
pub record TokenUsage : Type 0 where
  pub input_tokens : ℤ
  pub output_tokens : ℤ
  pub cache_read_tokens : ℤ
  pub cache_write_tokens : ℤ

abbrev pub no_usage : TokenUsage
no_usage = record {
  input_tokens = pos 0;
  output_tokens = pos 0;
  cache_read_tokens = pos 0;
  cache_write_tokens = pos 0;
}

-- `agent.ToolResult`
pub record ToolResult : Type 0 where
  pub call_id : Bytes
  pub content : Bytes
  pub is_error : Bool

-- `agent.Event`: each kind with the fields that the runner sets. The result channel of a tool call
-- is `await` below.
pub data AgentEvent : Type 0 where
  text_delta reasoning_delta : Bytes → AgentEvent
  tool_call : ToolCall → AgentEvent
  usage : TokenUsage → AgentEvent

-- The events that were emitted so far, the oldest first.
abbrev pub Log : Type 0
Log = List AgentEvent

-- Around a turn. What an answer depends on beside its arguments is the log.
pub record Environment : Type 0 where
  -- `runner.resolveModel`, of which the runner reads the upstream model, with `newStreamer`:
  -- a nil streamer is `none`
  pub resolve_model : Bytes → Result Bytes
  pub new_streamer : Bytes → Result (Option ℕ)
  -- what the streamer delivers in that pass, and the error that it returns
  pub stream : ℕ → Request → List Event × Option Error
  -- the error of the callback, on the events before and the event
  pub emit : Log → AgentEvent → Option Error
  -- `select` on the context and the result channel
  pub await : Log → ToolCall → Result ToolResult
  -- `ctx.Err()` before the acquisition (0), behind it (1) and behind a stream that failed (2)
  pub ctx_err : ℕ → Log → Option Error
