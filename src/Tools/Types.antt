-- ===== src/Tools/Types.antt =====
-- `ToolRequest`, `ToolResult` and `ToolDispatch` of internal/protocol/tool_bridge.go and tools.go,
-- and `ShellEventKind` of tool_shell.go.
use cursor_cli_byok.Base.{ℕ, Bool, false, [], Bytes, if◌then◌else◌}
use cursor_cli_byok.Go.Strings.{text, same}
use cursor_cli_byok.Provider.{ℤ, pos}

pub record ToolRequest : Type 0 where
  pub message_id : ℕ
  pub exec_id : Bytes
  pub call_id : Bytes
  pub name : Bytes
  pub arguments : Bytes

pub record ToolDispatch : Type 0 where
  pub execute : Bytes
  pub started : Bytes

pub data ShellEventKind : Type 0 where
  unknown_event stdout_event stderr_event exit_event start_event rejected_event : ShellEventKind
  permission_denied_event backgrounded_event : ShellEventKind

-- A payload that is nil in Go is empty here: each is a copy by `append([]byte(nil), ...)`, which is
-- nil for an empty one.
pub record ToolResult : Type 0 where
  pub message_id : ℕ
  pub exec_id : Bytes
  pub name : Bytes
  pub content : Bytes
  pub is_error : Bool
  pub complete : Bool
  pub result_payload : Bytes
  pub shell_event : ShellEventKind
  pub stdout_delta : Bytes
  pub stderr_delta : Bytes
  pub stdout : Bytes
  pub stderr : Bytes
  pub exit_code : ℤ
  pub cwd : Bytes
  pub shell_id : ℕ
  pub pid : ℕ
  pub truncated : Bool
  pub event_payload : Bytes

-- The result that `DecodeToolResult` hands to the decoder of a tool.
abbrev pub fresh_result : ToolRequest → ToolResult
fresh_result request = record {
  message_id = request.message_id;
  exec_id = request.exec_id;
  name = request.name;
  content = [];
  is_error = false;
  complete = false;
  result_payload = [];
  shell_event = unknown_event;
  stdout_delta = [];
  stderr_delta = [];
  stdout = [];
  stderr = [];
  exit_code = pos 0;
  cwd = [];
  shell_id = 0;
  pid = 0;
  truncated = false;
  event_payload = [];
}

-- The cases of `switch request.Name`.
pub data ToolKind : Type 0 where
  write_tool delete_tool list_tool grep_tool glob_tool shell_tool mcp_tool : ToolKind
  unsupported_tool : ToolKind

unfoldable pub tool_kind : Bytes → ToolKind
tool_kind name =
    if same name (text "Write")
    then write_tool
    else if same name (text "Delete")
    then delete_tool
    else if same name (text "List")
    then list_tool
    else if same name (text "Grep")
    then grep_tool
    else if same name (text "Glob")
    then glob_tool
    else if same name (text "Shell")
    then shell_tool
    else if same name (text "CallMcpTool")
    then mcp_tool
    else unsupported_tool
