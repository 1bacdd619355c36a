-- ===== src/Launcher/Tests.antt =====
-- Arguments and environments of the launcher.
use cursor_cli_byok.Base.{◌≡◌, refl, ◌||◌, none, [], ◌∷◌, ◌++◌, Bytes, ok, if◌then◌else◌}
use cursor_cli_byok.Go.Strings.{same, text, has_prefix, has_control}
use cursor_cli_byok.Go.Table.{Table, lookup, put, remove}
use cursor_cli_byok.Provider.{contains}
use cursor_cli_byok.Launcher.{
  model_flag, model_prefix, separator, split_model_argument, LaunchOptions, launch_environment,
  delete_secrets, delete_keys, put_all, parse_environment, valid_environment_key, cursor_keys,
  own_variables,
}
use cursor_cli_byok.Launcher.Split.{are_plain, mentions_model, split_model_argument-insert}
use cursor_cli_byok.Launcher.Hidden.{latest, lookup-launch_environment}

-- `-p --model m hi -- --model`
split_model_argument-insert_example :
    (split_model_argument
        (text "d")
        ((text "-p" ∷ []) ++ model_flag ∷ text "m" ∷ text "hi" ∷ separator ∷ model_flag ∷ [])
      ≡ ok (text "m", (text "-p" ∷ []) ++ text "hi" ∷ separator ∷ model_flag ∷ []))
    × (split_model_argument
          (text "d")
          ((text "-p" ∷ []) ++ (model_prefix ++ text "m") ∷ text "hi" ∷ separator ∷ model_flag ∷ [])
        ≡ ok (text "m", (text "-p" ∷ []) ++ text "hi" ∷ separator ∷ model_flag ∷ []))
split_model_argument-insert_example =
    split_model_argument-insert (text "d") (text "m") (text "-p" ∷ [])
      (text "hi" ∷ separator ∷ model_flag ∷ []) (unfold are_plain text same has_prefix in refl)
      (unfold mentions_model text same has_prefix in refl) (unfold has_control text in refl)

abbrev small_options : LaunchOptions
small_options = record {
  cursor_path = text "/c";
  endpoint_url = text "https://localhost:1";
  model = text "m";
  ca_cert_path = text "/ca";
  auth_token = text "t";
  parent_env = text "K=1" ∷ text "HOME=/h" ∷ [];
  provider_secret_env_keys = text "K" ∷ [];
  user_args = [];
}

abbrev small_environment : Table Bytes
small_environment = (text "HOME", text "/h") ∷ own_variables small_options

launches : launch_environment small_options ≡ ok small_environment
unfolding launch_environment delete_secrets delete_keys put_all parse_environment
    valid_environment_key put remove same text
launches = refl

-- The secret `K` of the parent is not passed on.
lookup-launch_environment_example :
    lookup (text "K") small_environment
    ≡ latest (text "K") (own_variables small_options) (
        if contains (text "K") cursor_keys || contains (text "K") (text "K" ∷ [])
        then none
        else lookup (text "K") (parse_environment (text "K=1" ∷ text "HOME=/h" ∷ []) []))
lookup-launch_environment_example = lookup-launch_environment small_options (text "K") launches
