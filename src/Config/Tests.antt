-- ===== src/Config/Tests.antt =====
-- A configuration with two models.
use cursor_cli_byok.Base.{
  ◌≡◌, refl, true, false, none, some, inl, inr, [], ◌∷◌, Bytes, ok, err, new, All,
}
use cursor_cli_byok.Go.Strings.{same, text, trim_space, has_control, has_byte}
use cursor_cli_byok.Provider.{contains, pos}
use cursor_cli_byok.Config.{
  Net, Model, Config, ResolvedModel, is_environment_name, valid_http_header_name, to_lower,
  is_loopback_provider_host, validate_headers, validate_url, validate_name, validate_address,
  validate_upstream, validate_config_models, validate, resolve_model, resolved, show_model,
  show_resolved_model,
}
use cursor_cli_byok.Config.Valid.{IsConfig, validate-IsConfig}
use cursor_cli_byok.Config.Resolved.{IsSetIn, IsFound, resolve_model-finds, resolve_model-unknown}
use cursor_cli_byok.Config.Redacted.{redacts}

-- Every address is that of localhost.
abbrev local : Net
local = record {
  parse_url = λ address. some (record {
    is_absolute = true;
    scheme = text "http";
    host = text "localhost:1";
    hostname = text "LocalHost";
    has_user = false;
    raw_query = [];
    force_query = false;
    fragment = [];
  });
  is_loopback_ip = λ host. false;
}

abbrev with_key : Model
with_key = record {
  name = text "a";
  protocol = text "openai";
  base_url = text "http://localhost:1";
  endpoint = text "/v1/responses";
  api_key = text "k";
  api_key_env = [];
  headers = (text "X-A", text "1") ∷ [];
  upstream_model = text "u";
}

abbrev with_variable : Model
with_variable = record with_key { name = text "b"; api_key = []; api_key_env = text "K_1" }

abbrev two_models : Config
two_models = record {
  version = pos 1;
  default_model = text "b";
  models = with_key ∷ with_variable ∷ [];
}

validates : validate local two_models ≡ ok tt
unfolding validate validate_config_models validate_name validate_address validate_upstream
    validate_url validate_headers is_loopback_provider_host is_environment_name
    valid_http_header_name to_lower contains text same trim_space has_control has_byte
validates = refl

validate-IsConfig_example : IsConfig two_models
validate-IsConfig_example = validate-IsConfig local two_models validates

abbrev environment : Bytes → Bytes
environment name = text "secret"

resolve_model-finds_example :
    (r : ResolvedModel) × (resolve_model local two_models [] (some environment) ≡ ok r)
    × IsFound (text "b") r
resolve_model-finds_example =
    resolve_model-finds local two_models [] environment validates (inl refl) set
  where
    set : All (IsSetIn environment) two_models.models
    set = (inl refl, (inr (unfold text in refl), tt))

resolve_model-unknown_example :
    resolve_model local two_models (text "c") none ≡ err (new "resolve model: model does not exist")
resolve_model-unknown_example =
    resolve_model-unknown local two_models (text "c") none validates (unfold text in refl)
      (unfold contains text same in refl)

redacts_example :
    (show_model (λ s. s) (record with_key { api_key = text "x"; headers = [] })
      ≡ show_model (λ s. s) (record with_key { api_key = text "yz"; headers = [] }))
    × (show_resolved_model
          (λ s. s)
          (record (resolved with_key []) { api_key = text "x"; headers = [] })
        ≡ show_resolved_model
            (λ s. s)
            (record (resolved with_key []) { api_key = []; headers = [] }))
redacts_example =
    redacts (λ s. s) with_key (resolved with_key []) (text "x") (text "yz") (text "x") [] [] []
      (unfold text in refl) refl
