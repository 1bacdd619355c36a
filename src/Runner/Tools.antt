-- ===== src/Runner/Tools.antt =====
-- `mergeRunTools`, `validateRunRequest` and `NewRunner` of internal/agent/runner.go.
use cursor_cli_byok.Base.{
  Bool, not, List, [], ◌∷◌, ◌++◌, map, Bytes, Result, Outcome, ok, err, new, wrap, ◌>>=◌, ◌>>◌,
  refuse_if, map_err, if◌then◌else◌,
}
use cursor_cli_byok.Go.Strings.{text, is_empty, trim_space}
use cursor_cli_byok.Provider.{
  user, Tool, Request, any, contains, valid_bounded_text, validate_request,
}
use cursor_cli_byok.Runner.Events.{McpToolDefinition, RunRequest}

-- The request that carries tools to be validated.
abbrev pub tools_validation : List Tool → Request
tools_validation tools = record {
  model = text "validation";
  messages =
      record { role = user; content = text "validation"; tool_calls = []; tool_call_id = [] } ∷ [];
  tools = tools;
}

-- The loop over the MCP tools; `seen` holds the names so far.
unfoldable pub append_dynamic : List Bytes → List Tool → List McpToolDefinition → Result (List Tool)
append_dynamic seen result [] = ok result
append_dynamic seen result (d ∷ dynamic) =
    if contains d.name seen
    then err (new "duplicate tool name between built-in and MCP tools")
    else append_dynamic (d.name ∷ seen)
        (result
          ++ record { name = d.name; description = d.description; parameters = d.input_schema }
            ∷ [])
        dynamic

abbrev tool_name : Tool → Bytes
tool_name t = t.name

-- `mergeRunTools`
unfoldable pub merge_run_tools : List Tool → List McpToolDefinition → Result (List Tool)
merge_run_tools static dynamic = do
  result ← append_dynamic (map tool_name static) static dynamic
  if any result then (validate_request (tools_validation result) >> ok result) else ok result

-- `NewRunner`: the tools that the runner keeps. Both functions of the options are given.
unfoldable pub new_runner : List Tool → Result (List Tool)
new_runner tools =
    if any tools
    then (map_err (wrap "create agent runner") (validate_request (tools_validation tools))
        >> ok tools)
    else ok tools

-- `validRunIdentifier`
unfoldable pub valid_run_identifier : Bytes → Bool
valid_run_identifier value = valid_bounded_text value 1024

-- `validateRunRequest`
unfoldable pub validate_run_request : RunRequest → Outcome
validate_run_request run = do
  refuse_if (not (valid_run_identifier run.conversation_id))
      (new "execute agent turn: conversation ID is invalid")
  refuse_if (not (valid_run_identifier run.model_id))
      (new "execute agent turn: model ID is invalid")
  refuse_if (is_empty (trim_space run.user_text))
      (new "execute agent turn: user message is required")
  ok tt
