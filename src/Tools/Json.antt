-- ===== src/Tools/Json.antt =====
-- The structs that the tools of internal/protocol read from JSON and write to it, and
-- `decodeStrictToolArguments`. What `encoding/json` makes of them is a parameter, `ToolJson`.
use cursor_cli_byok.Base.{
  ℕ, Bool, Option, none, some, List, Bytes, Result, Error, ok, err, ◌>>◌, refuse_if, not,
}
use cursor_cli_byok.Provider.{ℤ}
use cursor_cli_byok.Protocol.Schema.{JsonValue, JsonEntries}

pub record WriteToolArguments : Type 0 where
  pub path : Bytes
  pub contents : Bytes

pub record DeleteToolArguments : Type 0 where
  pub path : Bytes

pub record ListToolArguments : Type 0 where
  pub path : Bytes
  pub depth : ℤ

pub record GrepToolArguments : Type 0 where
  pub pattern_text : Bytes
  pub path : Bytes
  pub glob : Bytes
  pub output_mode : Bytes

pub record GlobToolArguments : Type 0 where
  pub glob_pattern : Bytes
  pub target_directory : Bytes

-- `BlockUntilMS` is the 64 bits of a float64; JSON has neither NaN nor an infinity.
pub record ShellToolArguments : Type 0 where
  pub command : Bytes
  pub description : Bytes
  pub working_directory : Bytes
  pub block_until_ms : Option ℕ

pub record EditArguments : Type 0 where
  pub path : Bytes
  pub old_string : Bytes
  pub new_string : Bytes
  pub replace_all : Bool

-- `Arguments` is a `json.RawMessage`.
pub record McpToolArguments : Type 0 where
  pub name : Bytes
  pub server : Bytes
  pub tool_name : Bytes
  pub arguments : Bytes

pub record WriteSuccessContent : Type 0 where
  pub path : Bytes
  pub lines_created : ℤ
  pub file_size : ℤ

pub record WriteErrorContent : Type 0 where
  pub path : Bytes
  pub error : Bytes
  pub read_only : Bool

pub record DeleteSuccessContent : Type 0 where
  pub path : Bytes
  pub file_size : ℤ

pub record ListResultContent : Type 0 where
  pub path : Bytes
  pub entries : List Bytes
  pub truncated : Bool

pub record GrepMatchContent : Type 0 where
  pub file : Bytes
  pub line_number : ℤ
  pub content : Bytes
  pub is_context_line : Bool

pub record GrepCountContent : Type 0 where
  pub file : Bytes
  pub count : ℤ

pub record GrepResultContent : Type 0 where
  pub pattern_text : Bytes
  pub path : Bytes
  pub output_mode : Bytes
  pub files : List Bytes
  pub matches : List GrepMatchContent
  pub counts : List GrepCountContent
  pub truncated : Bool

pub record ToolErrorContent : Type 0 where
  pub path : Bytes
  pub error : Bytes

-- `encoding/json` on these structs. A `decode` call is `Decode` with unknown fields refused: the
-- value and the input behind it, `none` for an error. `at_end` says that one more `Decode` returns
-- `io.EOF`. `decode_object` decodes a `map[string]any`, each number with the bits that its
-- `Float64` returns; a `marshal` call is `json.Marshal`.
pub record ToolJson : Type 0 where
  pub decode_write : Bytes → Option (WriteToolArguments × Bytes)
  pub decode_delete : Bytes → Option (DeleteToolArguments × Bytes)
  pub decode_list : Bytes → Option (ListToolArguments × Bytes)
  pub decode_grep : Bytes → Option (GrepToolArguments × Bytes)
  pub decode_glob : Bytes → Option (GlobToolArguments × Bytes)
  pub decode_shell : Bytes → Option (ShellToolArguments × Bytes)
  pub decode_edit : Bytes → Option (EditArguments × Bytes)
  pub decode_mcp : Bytes → Option (McpToolArguments × Bytes)
  pub decode_object : Bytes → Option (Option JsonEntries × Bytes)
  pub at_end : Bytes → Bool
  pub marshal_write_success : WriteSuccessContent → Option Bytes
  pub marshal_write_error : WriteErrorContent → Option Bytes
  pub marshal_delete_success : DeleteSuccessContent → Option Bytes
  pub marshal_list_result : ListResultContent → Option Bytes
  pub marshal_grep_result : GrepResultContent → Option Bytes
  pub marshal_tool_error : ToolErrorContent → Option Bytes
  pub marshal_value : JsonValue → Option Bytes

module _ ⦃j : ToolJson⦄ where
  -- `decodeStrictToolArguments` with the decoder of the target; its callers replace its error.
  unfoldable pub decode_strict_tool_arguments {ℓ} :
      {A : Type ℓ} → (Bytes → Option (A × Bytes)) → Error → Bytes → Result A
  decode_strict_tool_arguments decode e raw = elim (decode raw) [
    | none ↦ err e
    | some (arguments, rest) ↦ refuse_if (not (j.at_end rest)) e >> ok arguments
  ]
