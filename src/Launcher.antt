-- ===== src/Launcher.antt =====
-- The launch of the Cursor CLI in internal/cursorcli/launch.go.
pub mod Split
pub mod Hidden
pub mod Tests
use cursor_cli_byok.Base.{
  ℕ, ◌+◌, Bool, true, false, not, ◌&&◌, ◌||◌, Option, none, some, List, [], ◌∷◌, ◌++◌, Bytes,
  Result, Outcome, ok, err, new, ◌>>=◌, ◌>>◌, refuse_if, ltb, leb, ◌==◌, drop, length,
  if◌then◌else◌,
}
use cursor_cli_byok.Go.Strings.{is_empty, same, text, has_prefix, has_control, has_padding}
use cursor_cli_byok.Go.Words.{precedes}
use cursor_cli_byok.Go.Table.{Table, lookup, put, remove}

-- `--`, behind which arguments are left alone.
abbrev pub separator : Bytes
separator = 45 ∷ 45 ∷ []

abbrev pub model_flag : Bytes
model_flag = text "--model"

abbrev pub model_prefix : Bytes
model_prefix = text "--model="

-- The selected model, whether it was named, and what is forwarded.
pub record Splitting : Type 0 where
  pub selected_model : Bytes
  pub selection_found : Bool
  pub forwarded : List Bytes

-- The checks on a model that an argument names.
unfoldable pub select_model : Bytes → Splitting → Result Splitting
select_model model s = do
  refuse_if s.selection_found (new "split Cursor arguments: --model may be specified only once")
  refuse_if (is_empty model || has_control model)
      (new "split Cursor arguments: --model value is invalid")
  ok (record s { selected_model = model; selection_found = true })

-- The test behind the loop of `SplitModelArgument`.
unfoldable pub finish_split : Splitting → Result (Bytes × List Bytes)
finish_split s = do
  refuse_if (is_empty s.selected_model || has_control s.selected_model)
      (new "split Cursor arguments: default model is required")
  ok (s.selected_model, s.forwarded)

-- The loop of `SplitModelArgument`; the flag is set while `--model` waits for its value. Behind the
-- separator every argument is forwarded.
unfoldable pub split_loop : Bool → List Bytes → Splitting → Result (Bytes × List Bytes)
split_loop true [] s = err (new "split Cursor arguments: --model requires a value")
split_loop false [] s = finish_split s
split_loop true (model ∷ args) s = select_model model s >>= λ s'. split_loop false args s'
split_loop false (argument ∷ args) s = elim (same argument separator) [
  | true ↦ finish_split (record s { forwarded = s.forwarded ++ argument ∷ args })
  | false ↦ elim (same argument model_flag) [
    | true ↦ split_loop true args s
    | false ↦ elim (has_prefix argument model_prefix) [
      | true ↦
          select_model (drop (length model_prefix) argument) s >>= λ s'. split_loop false args s'
      | false ↦ split_loop false args (record s { forwarded = s.forwarded ++ argument ∷ [] })
    ]
  ]
]

-- `SplitModelArgument`
unfoldable pub split_model_argument : Bytes → List Bytes → Result (Bytes × List Bytes)
split_model_argument default_model args =
    split_loop false args
      (record { selected_model = default_model; selection_found = false; forwarded = [] })

names_flag : Bytes → List Bytes → Bool
names_flag argument [] = false
names_flag argument (name ∷ names) =
    (same argument name || has_prefix argument (name ++ text "=")) || names_flag argument names

-- `isReservedArgument`
unfoldable pub is_reserved_argument : Bytes → Bool
unfolding names_flag
is_reserved_argument argument =
    names_flag argument (text "-e" ∷ text "--endpoint" ∷ text "--api-key" ∷ text "--model" ∷ [])
    || (has_prefix argument (text "-e") && not (has_prefix argument (text "--")))

-- `rejectReservedArguments`
unfoldable pub reject_reserved_arguments : List Bytes → Outcome
reject_reserved_arguments [] = ok tt
reject_reserved_arguments (argument ∷ args) = elim (same argument separator) [
  | true ↦ ok tt
  | false ↦
      refuse_if (is_reserved_argument argument)
        (new "build Cursor launch: endpoint, model, and Cursor API key arguments are reserved")
      >> reject_reserved_arguments args
]

-- `validEnvironmentKey`
key_letter : ℕ → Bool
key_letter b = b == 95 || ((leb 65 b && leb b 90) || (leb 97 b && leb b 122))

key_letters : Bytes → Bool
unfolding key_letter
key_letters [] = true
key_letters (b ∷ s) = (key_letter b || (leb 48 b && leb b 57)) && key_letters s

unfoldable pub valid_environment_key : Bytes → Bool
unfolding key_letter key_letters
valid_environment_key [] = false
valid_environment_key (b ∷ s) = key_letter b && key_letters s

-- An entry up to its first `=`, and what is behind it, as `strings.Cut` finds them.
cut_entry : Bytes → Option (Bytes × Bytes)
cut_entry [] = none
cut_entry (b ∷ s) = elim (b == 61) [
  | true ↦ some ([], s)
  | false ↦ elim (cut_entry s) [ none ↦ none | some (key, value) ↦ some (b ∷ key, value) ]
]

add_entry : Option (Bytes × Bytes) → Table Bytes → Table Bytes
add_entry none environment = environment
add_entry (some (key, value)) environment =
    if is_empty key then environment else put key value environment

-- `parseEnvironment`
unfoldable pub parse_environment : List Bytes → Table Bytes → Table Bytes
unfolding cut_entry add_entry
parse_environment [] environment = environment
parse_environment (entry ∷ entries) environment =
    parse_environment entries (add_entry (cut_entry entry) environment)

insert_pair : Bytes × Bytes → Table Bytes → Table Bytes
insert_pair pair [] = pair ∷ []
insert_pair pair (other ∷ table) =
    let behind = insert_pair pair table in
    if precedes other.0 pair.0 then other ∷ behind else pair ∷ (other ∷ table)

sort_pairs : Table Bytes → Table Bytes
unfolding insert_pair
sort_pairs [] = []
sort_pairs (pair ∷ table) = insert_pair pair (sort_pairs table)

format_pairs : Table Bytes → List Bytes
format_pairs [] = []
format_pairs ((key, value) ∷ table) = (key ++ (61 ∷ value)) ∷ format_pairs table

-- `formatEnvironment`
unfoldable pub format_environment : Table Bytes → List Bytes
unfolding sort_pairs format_pairs
format_environment environment = format_pairs (sort_pairs environment)

-- The origin that `url.Parse` makes of an endpoint; the port is what `strconv.Atoi` makes of it.
pub record Origin : Type 0 where
  pub scheme : Bytes
  pub host : Bytes
  pub hostname : Bytes
  pub port : Option ℕ
  pub path : Bytes
  pub has_user : Bool
  pub raw_query : Bytes
  pub force_query : Bool
  pub fragment : Bytes

-- `url.Parse`, and `net.ParseIP` with `IsLoopback`
pub record Resolver : Type 0 where
  pub parse_origin : Bytes → Option Origin
  pub is_loopback_ip : Bytes → Bool

abbrev bad_port : Option ℕ → Bool
bad_port none = true
bad_port (some port) = ltb port 1 || ltb 65535 port

validate_origin : Resolver → Option Origin → Outcome
validate_origin r none = err (new "build Cursor launch: endpoint must be an absolute HTTPS URL")
validate_origin r (some origin) = do
  refuse_if (not (same origin.scheme (text "https")) || is_empty origin.host)
      (new "build Cursor launch: endpoint must be an absolute HTTPS URL")
  refuse_if
      (origin.has_user
        || ((not (is_empty origin.path) && not (same origin.path (text "/")))
            || (not (is_empty origin.raw_query)
                || (origin.force_query || not (is_empty origin.fragment)))))
      (new "build Cursor launch: endpoint must be a bare loopback HTTPS origin")
  refuse_if
      (not (same origin.hostname (text "localhost")) && not (r.is_loopback_ip origin.hostname))
      (new "build Cursor launch: endpoint host must be loopback")
  refuse_if (bad_port origin.port) (new "build Cursor launch: endpoint must include a valid port")

-- `validateLocalEndpoint`
unfoldable pub validate_local_endpoint : Resolver → Bytes → Outcome
unfolding validate_origin
validate_local_endpoint r raw_url = validate_origin r (r.parse_origin raw_url)

pub record LaunchOptions : Type 0 where
  pub cursor_path : Bytes
  pub endpoint_url : Bytes
  pub model : Bytes
  pub ca_cert_path : Bytes
  pub auth_token : Bytes
  pub parent_env : List Bytes
  pub provider_secret_env_keys : List Bytes
  pub user_args : List Bytes

pub record LaunchSpec : Type 0 where
  pub path : Bytes
  pub args : List Bytes
  pub env : List Bytes

-- `filepath.IsAbs`
abbrev is_absolute : Bytes → Bool
is_absolute path = has_prefix path (text "/")

-- The loop that deletes the provider's secrets.
unfoldable pub delete_secrets : List Bytes → Table Bytes → Result (Table Bytes)
delete_secrets [] environment = ok environment
delete_secrets (key ∷ keys) environment = do
  refuse_if (not (valid_environment_key key))
      (new "build Cursor launch: provider secret environment name is invalid")
  delete_secrets keys (remove key environment)

unfoldable pub delete_keys : List Bytes → Table Bytes → Table Bytes
delete_keys [] environment = environment
delete_keys (key ∷ keys) environment = delete_keys keys (remove key environment)

abbrev pub cursor_keys : List Bytes
cursor_keys =
    text "CURSOR_API_KEY"
    ∷ text "CURSOR_AGENT_CLI_AUTHLESS_MODE"
    ∷ text "CURSOR_AGENT_CLI_LOCAL_MODE"
    ∷ text "CURSOR_ENABLE_AUTHLESS"
    ∷ text "CURSOR_ENABLE_BEDROCK"
    ∷ text "CURSOR_ENABLE_LOCAL_BEDROCK"
    ∷ text "CURSOR_LOCAL_AGENT_ALLOW_CURSOR_HOST"
    ∷ text "CURSOR_LOCAL_AGENT_API_KEY"
    ∷ text "CURSOR_LOCAL_AGENT_API_KEY_HELPER"
    ∷ text "CURSOR_LOCAL_AGENT_BASE_URL"
    ∷ []

-- The variables that are set.
abbrev pub own_variables : LaunchOptions → Table Bytes
own_variables options =
    (text "CURSOR_AUTH_TOKEN", options.auth_token)
    ∷ (text "CURSOR_API_ENDPOINT", options.endpoint_url)
    ∷ (text "CURSOR_API_BASE_URL", options.endpoint_url)
    ∷ (text "AGENT_CLI_CREDENTIAL_STORE", text "file")
    ∷ (text "NODE_EXTRA_CA_CERTS", options.ca_cert_path)
    ∷ (text "NO_OPEN_BROWSER", text "1")
    ∷ []

unfoldable pub put_all : Table Bytes → Table Bytes → Table Bytes
put_all [] environment = environment
put_all ((key, value) ∷ variables) environment = put_all variables (put key value environment)

-- The environment of the launch.
unfoldable pub launch_environment : LaunchOptions → Result (Table Bytes)
launch_environment options = do
  environment ←
      delete_secrets options.provider_secret_env_keys (parse_environment options.parent_env [])
  ok (put_all (own_variables options) (delete_keys cursor_keys environment))

-- `BuildLaunchSpec`
unfoldable pub build_launch_spec : Resolver → LaunchOptions → Result LaunchSpec
build_launch_spec r options = do
  refuse_if (not (is_absolute options.cursor_path))
      (new "build Cursor launch: cursor-agent path must be absolute")
  validate_local_endpoint r options.endpoint_url
  refuse_if (is_empty options.model || (has_padding options.model || has_control options.model))
      (new "build Cursor launch: model must be a nonempty safe alias")
  refuse_if (not (is_absolute options.ca_cert_path))
      (new "build Cursor launch: CA certificate path must be absolute")
  refuse_if (is_empty options.auth_token || has_control options.auth_token)
      (new "build Cursor launch: local auth token is required")
  reject_reserved_arguments options.user_args
  environment ← launch_environment options
  ok (record {
    path = options.cursor_path;
    args = text "-e" ∷ options.endpoint_url ∷ text "--model" ∷ options.model ∷ options.user_args;
    env = format_environment environment;
  })
