-- ===== src/Protocol/Models.antt =====
-- internal/protocol/wire.go: the lists of models and the local account.
use cursor_cli_byok.Base.{
  ℕ, Bool, true, false, not, ◌||◌, List, [], ◌∷◌, Bytes, Result, Outcome, ok, err, new, ◌>>=◌, ◌>>◌,
  refuse_if, ltb, length, if◌then◌else◌, ◌==◌,
}
use cursor_cli_byok.Go.Strings.{text, same, is_empty, has_padding, has_control}
use cursor_cli_byok.Provider.{contains}
use cursor_cli_byok.Wire.Protowire.{Protowire}
use cursor_cli_byok.Wire.Encode.{append_string, append_message, append_bool, append_varint}

-- `validateModelName`
unfoldable pub validate_model_name : Bytes → Outcome
validate_model_name name =
    refuse_if (is_empty name || (ltb 256 (length name) || (has_padding name || has_control name)))
      (new "encode models: model name is invalid")

-- The loop of `validateModels`: whether the default was found.
unfoldable pub check_names : Bytes → List Bytes → Bool → List Bytes → Result Bool
check_names default_model seen found [] = ok found
check_names default_model seen found (name ∷ names) = do
  validate_model_name name
  refuse_if (contains name seen) (new "encode models: model names must be unique")
  check_names default_model (name ∷ seen) (found || same name default_model) names

-- `validateModels`
unfoldable pub validate_models : List Bytes → Bytes → Outcome
validate_models [] default_model = err (new "encode models: at least one model is required")
validate_models (name ∷ names) default_model = do
  found ← check_names default_model [] false (name ∷ names)
  refuse_if (not found) (new "encode models: default model does not exist")

module _ ⦃w : Protowire⦄ where
  -- One entry of the list of available models.
  unfoldable pub encode_model : Bytes → Bytes → Bytes
  encode_model default_model name =
      let model = append_string [] 1 name in
      let model = if same name default_model then append_bool model 2 true else model in
      let model = append_bool model 5 true in
      let model = append_string model 17 name in
      let model = append_string model 18 name in
      let model = append_bool model 19 true in
      let model = append_bool model 22 true in
      let model = append_bool model 23 true in
      let model = append_string model 24 name in append_bool model 25 true

  unfoldable pub append_models : Bytes → Bytes → List Bytes → Bytes
  append_models default_model payload [] = payload
  append_models default_model payload (name ∷ names) =
      append_models default_model
        (append_message (append_string payload 1 name) 2 (encode_model default_model name)) names

  -- One configuration field: the models, twice in the fields 4 and 6.
  unfoldable pub append_config_names : ℕ → Bytes → List Bytes → Bytes
  append_config_names field config [] = config
  append_config_names field config (name ∷ names) =
      let config = append_string config 2 name in
      append_config_names field
        (if field == 4 || field == 6 then append_string config 3 name else config) names

  unfoldable pub append_configs : Bytes → List Bytes → Bytes → List ℕ → Bytes
  append_configs default_model names payload [] = payload
  append_configs default_model names payload (field ∷ fields) =
      append_configs default_model names
        (append_message payload field
          (append_config_names field (append_string [] 1 default_model) names))
        fields

  -- `EncodeAvailableModels`
  unfoldable pub encode_available_models : List Bytes → Bytes → Result Bytes
  encode_available_models names default_model = do
    validate_models names default_model
    ok (
        append_configs default_model names (append_models default_model [] names)
          (4 ∷ 5 ∷ 6 ∷ 7 ∷ 8 ∷ 9 ∷ 10 ∷ []))

  -- `encodeAgentModelDetails`
  unfoldable pub encode_agent_model_details : Bytes → Bytes
  encode_agent_model_details name =
      let details = append_string [] 1 name in
      let details = append_string details 3 name in
      let details = append_string details 4 name in
      let details = append_string details 5 name in append_string details 6 name

  unfoldable pub append_details : Bytes → List Bytes → Bytes
  append_details payload [] = payload
  append_details payload (name ∷ names) =
      append_details (append_message payload 1 (encode_agent_model_details name)) names

  -- `EncodeUsableModels`
  unfoldable pub encode_usable_models : List Bytes → Result Bytes
  encode_usable_models [] = err (new "encode models: at least one model is required")
  encode_usable_models (name ∷ names) = do
    validate_models (name ∷ names) name
    ok (append_details [] (name ∷ names))

  -- `EncodeDefaultModel`
  unfoldable pub encode_default_model : Bytes → Result Bytes
  encode_default_model name = do
    validate_model_name name
    ok (append_message [] 1 (encode_agent_model_details name))

  -- `EncodeLocalAccount`
  unfoldable pub encode_local_account : Bytes
  encode_local_account =
      let payload = append_string [] 1 (text "cursor-cli-byok") in
      let payload = append_varint payload 2 1 in
      let payload = append_string payload 3 (text "byok@localhost") in
      let payload = append_string payload 4 (text "Cursor") in
      let payload = append_string payload 5 (text "BYOK") in
      let payload = append_string payload 8 (text "2026-01-01T00:00:00Z") in
      let payload = append_string payload 11 (text "personal") in
      append_string payload 12 (text "local")

  -- `EncodeNoStoragePrivacyMode`
  unfoldable pub encode_no_storage_privacy_mode : Bytes
  encode_no_storage_privacy_mode = append_bool (append_varint [] 1 1) 6 true

  -- `EncodeServerConfig`
  unfoldable pub encode_server_config : Bytes
  encode_server_config = append_bool (append_string [] 6 (text "cursor_cli_byok_v1")) 28 true
