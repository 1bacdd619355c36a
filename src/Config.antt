-- ===== src/Config.antt =====
-- The configuration of internal/config/types.go. `Net` is what it calls of net/url and net.
pub mod Valid
pub mod Resolved
pub mod Redacted
pub mod Tests
use cursor_cli_byok.Base.{
  ℕ, ◌+◌, Bool, true, false, not, ◌&&◌, ◌||◌, Option, none, some, List, [], ◌∷◌, ◌++◌, map, Bytes,
  Result, Outcome, ok, err, Error, new, wrap, ◌>>=◌, ◌>>◌, refuse_if, map_err, ltb, leb, ◌==◌,
  length, if◌then◌else◌,
}
use cursor_cli_byok.Go.Strings.{
  is_empty, same, text, trim_space, has_control, has_padding, has_byte,
}
use cursor_cli_byok.Go.Decimal.{decimal, signed_decimal}
use cursor_cli_byok.Go.Words.{join_with}
use cursor_cli_byok.Go.Table.{Table}
use cursor_cli_byok.Provider.{contains, ℤ, pos, negsuc}

-- `url.URL`, as far as the code looks at it.
pub record Url : Type 0 where
  pub is_absolute : Bool
  pub scheme : Bytes
  pub host : Bytes
  pub hostname : Bytes
  pub has_user : Bool
  pub raw_query : Bytes
  pub force_query : Bool
  pub fragment : Bytes

-- `url.Parse`, and `net.ParseIP` with `IsLoopback`.
pub record Net : Type 0 where
  pub parse_url : Bytes → Option Url
  pub is_loopback_ip : Bytes → Bool

-- The headers stand in the order in which the map is iterated, which Go leaves open.
pub record Model : Type 0 where
  pub name : Bytes
  pub protocol : Bytes
  pub base_url : Bytes
  pub endpoint : Bytes
  pub api_key : Bytes
  pub api_key_env : Bytes
  pub headers : Table Bytes
  pub upstream_model : Bytes

pub record Config : Type 0 where
  pub version : ℤ
  pub default_model : Bytes
  pub models : List Model

pub record ResolvedModel : Type 0 where
  pub name : Bytes
  pub protocol : Bytes
  pub base_url : Bytes
  pub endpoint : Bytes
  pub api_key : Bytes
  pub headers : Table Bytes
  pub upstream_model : Bytes

-- `c.Version != CurrentVersion`
abbrev is_current : ℤ → Bool
is_current (pos n) = n == 1
is_current (negsuc n) = false

abbrev pub protocol_openai : Bytes
protocol_openai = text "openai"

abbrev pub endpoint_responses : Bytes
endpoint_responses = text "/v1/responses"

abbrev pub endpoint_chat_completions : Bytes
endpoint_chat_completions = text "/v1/chat/completions"

abbrev reserved_daemon_lock_env : Bytes
reserved_daemon_lock_env = text "CURSOR_CLI_BYOK_LOCK_FD"

is_upper : ℕ → Bool
is_upper b = leb 65 b && leb b 90

is_letter : ℕ → Bool
unfolding is_upper
is_letter b = is_upper b || (leb 97 b && leb b 122)

is_digit : ℕ → Bool
is_digit b = leb 48 b && leb b 57

every : (ℕ → Bool) → Bytes → Bool
every test [] = true
every test (b ∷ s) = test b && every test s

-- `shellEnvironmentName`: a letter or `_`, and letters, digits and `_` behind it.
unfoldable pub is_environment_name : Bytes → Bool
unfolding every is_letter is_digit
is_environment_name [] = false
is_environment_name (b ∷ name) =
    (is_letter b || b == 95) && every (λ c. is_letter c || (is_digit c || c == 95)) name

-- `validHTTPHeaderName`
unfoldable pub valid_http_header_name : Bytes → Bool
unfolding every is_letter is_digit
valid_http_header_name name =
    every (λ b. is_letter b || (is_digit b || has_byte b (text "!#$%&'*+-.^_`|~"))) name

abbrev lower : ℕ → ℕ
lower b = if leb 65 b && leb b 90 then b + 32 else b

-- `strings.ToLower` on ASCII, which a valid header name is.
unfoldable pub to_lower : Bytes → Bytes
to_lower [] = []
to_lower (b ∷ s) = lower b ∷ to_lower s

-- A text with the letters of its case folded: U+017F, the long s, folds to an `s`.
fold_case : Bytes → Bytes
fold_case [] = []
fold_case (a ∷ []) = lower a ∷ []
fold_case (a ∷ b ∷ s) = elim (a == 0xC5 && b == 0xBF) [
  | true ↦ 115 ∷ fold_case s
  | false ↦ lower a ∷ fold_case (b ∷ s)
]

-- `isLoopbackProviderHost`, with `strings.EqualFold` on a text of ASCII without a `k`.
unfoldable pub is_loopback_provider_host : Net → Bytes → Bool
unfolding fold_case
is_loopback_provider_host net host =
    same (fold_case host) (text "localhost") || net.is_loopback_ip host

abbrev reserved_provider_headers : List Bytes
reserved_provider_headers =
    text "accept"
    ∷ text "authorization"
    ∷ text "connection"
    ∷ text "content-length"
    ∷ text "content-type"
    ∷ text "host"
    ∷ text "keep-alive"
    ∷ text "proxy-authorization"
    ∷ text "proxy-connection"
    ∷ text "te"
    ∷ text "trailer"
    ∷ text "transfer-encoding"
    ∷ text "upgrade"
    ∷ []

-- The loop of `ValidateProviderHeaders`, with the lower-case names that are seen.
unfoldable pub validate_headers : List Bytes → Table Bytes → Outcome
validate_headers seen [] = ok tt
validate_headers seen ((name, value) ∷ headers) = do
  refuse_if (is_empty name || (has_padding name || not (valid_http_header_name name)))
      (new "provider header name is invalid")
  refuse_if (contains (to_lower name) reserved_provider_headers) (new "provider header is reserved")
  refuse_if (contains (to_lower name) seen) (new "provider header is duplicated")
  refuse_if (has_padding value || has_control value) (new "provider header value is invalid")
  validate_headers (to_lower name ∷ seen) headers

abbrev pub validate_provider_headers : Table Bytes → Outcome
validate_provider_headers headers = validate_headers [] headers

-- The checks on the parsed `base_url`.
unfoldable pub validate_url : Net → Option Url → Outcome
validate_url net none =
    err (new "validate config: model base_url must be an absolute HTTP or HTTPS URL with a host")
validate_url net (some url) = do
  refuse_if
      (not url.is_absolute
        || (is_empty url.host
            || (not (same url.scheme (text "http")) && not (same url.scheme (text "https")))))
      (new "validate config: model base_url must be an absolute HTTP or HTTPS URL with a host")
  refuse_if
      (url.has_user
        || (not (is_empty url.raw_query) || (url.force_query || not (is_empty url.fragment))))
      (new
        "validate config: model base_url must not contain userinfo, query, or fragment components")
  refuse_if (same url.scheme (text "http") && not (is_loopback_provider_host net url.hostname))
      (new "validate config: model base_url must use HTTPS unless the host is loopback")

-- The checks on one model before the test for duplicates
unfoldable pub validate_name : Model → Outcome
validate_name model = do
  refuse_if (is_empty model.name) (new "validate config: model name is required")
  refuse_if (has_padding model.name)
      (new "validate config: model name must not contain surrounding whitespace")
  refuse_if (has_control model.name)
      (new "validate config: model name must not contain control characters")

-- those on its protocol and its address,
unfoldable pub validate_address : Net → Model → Outcome
validate_address net model = do
  refuse_if (is_empty model.protocol) (new "validate config: model protocol is required")
  refuse_if (has_padding model.protocol)
      (new "validate config: model protocol must not contain surrounding whitespace")
  refuse_if (not (same model.protocol protocol_openai))
      (new "validate config: model protocol is unsupported")
  refuse_if (is_empty model.base_url) (new "validate config: model base_url is required")
  refuse_if (has_padding model.base_url)
      (new "validate config: model base_url must not contain surrounding whitespace")
  validate_url net (net.parse_url model.base_url)
  refuse_if (is_empty model.endpoint) (new "validate config: model endpoint is required")
  refuse_if (has_padding model.endpoint)
      (new "validate config: model endpoint must not contain surrounding whitespace")
  refuse_if
      (not (same model.endpoint endpoint_responses)
        && not (same model.endpoint endpoint_chat_completions))
      (new "validate config: model endpoint is unsupported")

abbrev both_alike : Bool → Bool → Bool
both_alike true b = b
both_alike false b = not b

-- those on its upstream name, its key and its headers.
unfoldable pub validate_upstream : Model → Outcome
validate_upstream model = do
  refuse_if (is_empty model.upstream_model)
      (new "validate config: model upstream_model is required")
  refuse_if (has_padding model.upstream_model)
      (new "validate config: model upstream_model must not contain surrounding whitespace")
  refuse_if (has_control model.upstream_model)
      (new "validate config: model upstream_model must not contain control characters")
  refuse_if (not (is_empty model.api_key_env) && has_padding model.api_key_env)
      (new "validate config: model api_key_env must not contain surrounding whitespace")
  refuse_if
      (both_alike (not (is_empty (trim_space model.api_key))) (not (is_empty model.api_key_env)))
      (new "validate config: exactly one of api_key or api_key_env is required")
  refuse_if (not (is_empty model.api_key_env) && not (is_environment_name model.api_key_env))
      (new "validate config: model api_key_env is not a valid environment variable name")
  refuse_if (same model.api_key_env reserved_daemon_lock_env)
      (new "validate config: model api_key_env conflicts with an internal runtime variable")
  map_err (wrap "validate config: model headers") (validate_provider_headers model.headers)

-- The loop over the models, with the names that are seen before and after.
unfoldable pub validate_config_models : Net → List Bytes → List Model → Result (List Bytes)
validate_config_models net seen [] = ok seen
validate_config_models net seen (model ∷ models) =
    validate_name model
    >> (refuse_if (contains model.name seen) (new "validate config: duplicate model name")
        >> (validate_address net model
            >> (validate_upstream model >> validate_config_models net (model.name ∷ seen) models)))

-- `Config.Validate`
unfoldable pub validate : Net → Config → Outcome
validate net config = do
  refuse_if (not (is_current config.version)) (new "validate config: unsupported version")
  refuse_if (is_empty config.default_model) (new "validate config: default_model is required")
  refuse_if (has_padding config.default_model)
      (new "validate config: default_model must not contain surrounding whitespace")
  refuse_if (length config.models == 0) (new "validate config: models is required")
  names ← validate_config_models net [] config.models
  refuse_if (not (contains config.default_model names))
      (new "validate config: default_model does not exist")

-- The secret of a model: the key itself, or the variable that is named.
unfoldable pub secret_of : Option (Bytes → Bytes) → Model → Result Bytes
secret_of getenv model =
    if is_empty model.api_key_env then ok model.api_key else from_environment getenv
  where
    from_environment : Option (Bytes → Bytes) → Result Bytes
    from_environment none = err (new "resolve model: environment lookup is required")
    from_environment (some get) =
        if is_empty (get model.api_key_env)
        then err (new "resolve model: environment variable is unset or empty")
        else ok (get model.api_key_env)

abbrev pub resolved : Model → Bytes → ResolvedModel
resolved model secret = record {
  name = model.name;
  protocol = model.protocol;
  base_url = model.base_url;
  endpoint = model.endpoint;
  api_key = secret;
  headers = model.headers;
  upstream_model = model.upstream_model;
}

-- The loop of `ResolveModel`; the headers are cloned, with the same contents.
unfoldable pub resolve_among : Option (Bytes → Bytes) → Bytes → List Model → Result ResolvedModel
resolve_among getenv selected [] = err (new "resolve model: model does not exist")
resolve_among getenv selected (model ∷ models) = elim (same model.name selected) [
  | true ↦ secret_of getenv model >>= λ secret. ok (resolved model secret)
  | false ↦ resolve_among getenv selected models
]

abbrev pub selected_name : Config → Bytes → Bytes
selected_name config [] = config.default_model
selected_name config (b ∷ name) = b ∷ name

-- `Config.ResolveModel`
unfoldable pub resolve_model : Net → Config → Bytes → Option (Bytes → Bytes) → Result ResolvedModel
resolve_model net config name getenv = do
  validate net config
  resolve_among getenv (selected_name config name) config.models

module _ (quote : Bytes → Bytes) where
  -- `[REDACTED:%d]` on the number of headers.
  redacted_headers : Table Bytes → Bytes
  redacted_headers headers = text "[REDACTED:" ++ (decimal (length headers) ++ text "]")

  abbrev redacted_key : Bytes → Bytes
  redacted_key key = if is_empty key then [] else text "[REDACTED]"

  field_text : Bytes → Bytes → Bytes
  field_text name value = name ++ quote value

  -- `Model.String`; `quote` is the verb `%q`.
  unfoldable pub show_model : Model → Bytes
  unfolding redacted_headers field_text
  show_model m =
      text "Model{"
      ++ (field_text (text "Name:") m.name
          ++ (field_text (text " Protocol:") m.protocol
              ++ (field_text (text " BaseURL:") m.base_url
                  ++ (field_text (text " Endpoint:") m.endpoint
                      ++ (field_text (text " APIKey:") (redacted_key m.api_key)
                          ++ (field_text (text " APIKeyEnv:") m.api_key_env
                              ++ (text " Headers:"
                                  ++ ((if length m.headers == 0
                                        then text "[]"
                                        else redacted_headers m.headers)
                                      ++ (field_text (text " UpstreamModel:") m.upstream_model
                                          ++ text "}")))))))))

  -- `Config.String`
  unfoldable pub show_config : Config → Bytes
  unfolding field_text
  show_config c =
      text "Config{Version:"
      ++ (signed_decimal c.version
          ++ (field_text (text " DefaultModel:") c.default_model
              ++ (text " Models:["
                  ++ (join_with (text ", ") (map show_model c.models) ++ text "]}"))))

  -- `ResolvedModel.String`
  unfoldable pub show_resolved_model : ResolvedModel → Bytes
  unfolding redacted_headers field_text
  show_resolved_model m =
      text "ResolvedModel{"
      ++ (field_text (text "Name:") m.name
          ++ (field_text (text " Protocol:") m.protocol
              ++ (field_text (text " BaseURL:") m.base_url
                  ++ (field_text (text " Endpoint:") m.endpoint
                      ++ (field_text (text " APIKey:") (text "[REDACTED]")
                          ++ (text " Headers:"
                              ++ (redacted_headers m.headers
                                  ++ (field_text (text " UpstreamModel:") m.upstream_model
                                      ++ text "}"))))))))
