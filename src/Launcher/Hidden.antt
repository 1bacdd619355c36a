-- ===== src/Launcher/Hidden.antt =====
-- What `BuildLaunchSpec` of internal/cursorcli/launch.go passes on of the environment.
use cursor_cli_byok.Base.{
  ◌≡◌, refl, sym, Bool, true, false, not, ◌||◌, Option, none, some, List, [], ◌∷◌, Bytes, ok,
  bind-eq-ok, ok_eq, arith, if◌then◌else◌,
}
use cursor_cli_byok.Go.Strings.{same}
use cursor_cli_byok.Go.Table.{Table, lookup, put, remove, lookup-put, lookup-remove}
use cursor_cli_byok.Provider.{contains}
use cursor_cli_byok.Protocol.Schema.Counted.{past}
use cursor_cli_byok.Launcher.{
  LaunchOptions, valid_environment_key, delete_secrets, delete_keys, put_all, cursor_keys,
  own_variables, parse_environment, launch_environment,
}

-- The last value that a list of variables has for a name, or another.
unfoldable pub latest : Bytes → Table Bytes → Option Bytes → Option Bytes
latest name [] other = other
latest name ((key, value) ∷ variables) other =
    latest name variables (if same key name then some value else other)

lookup-put_all :
    (name : Bytes) (variables environment : Table Bytes)
    → lookup name (put_all variables environment) ≡ latest name variables (lookup name environment)
unfolding put_all latest
lookup-put_all name [] environment = refl
lookup-put_all name ((key, value) ∷ variables) environment =
    rw (lookup-put_all name variables (put key value environment))
      (rw (lookup-put key name value environment) refl)

lookup-delete_keys :
    (name : Bytes) (keys : List Bytes) (environment : Table Bytes)
    → lookup name (delete_keys keys environment)
      ≡ (if contains name keys then none else lookup name environment)
unfolding delete_keys contains
lookup-delete_keys name [] environment = refl
lookup-delete_keys name (key ∷ keys) environment = ground (
  arith,
  lookup-delete_keys name keys (remove key environment),
  lookup-remove key name environment,
)

delete_secrets-keys :
    (keys : List Bytes) (environment : Table Bytes) {out : Table Bytes}
    → delete_secrets keys environment ≡ ok out
    → out ≡ delete_keys keys environment
unfolding delete_secrets delete_keys
delete_secrets-keys [] environment e = sym (ok_eq e)
delete_secrets-keys (key ∷ keys) environment e =
    delete_secrets-keys keys (remove key environment) (past (not (valid_environment_key key)) _ e)

-- A variable of the launch's environment is the launcher's own, or that of the parent, unless the
-- provider's secrets or the variables of the Cursor CLI name it: then it is not there.
pub lookup-launch_environment :
    (options : LaunchOptions) (name : Bytes) {environment : Table Bytes}
    → launch_environment options ≡ ok environment
    → lookup name environment
      ≡ latest name (own_variables options) (
          if contains name cursor_keys || contains name options.provider_secret_env_keys
          then none
          else lookup name (parse_environment options.parent_env []))
unfolding launch_environment
lookup-launch_environment options name e =
    let parent = parse_environment options.parent_env [] in
    let (left, deleted, e1) =
      bind-eq-ok (delete_secrets options.provider_secret_env_keys parent) _ e in
    let cut = delete_secrets-keys options.provider_secret_env_keys parent deleted in
    rw (← ok_eq e1) (
      rw (lookup-put_all name (own_variables options) (delete_keys cursor_keys left)) (
        rw (lookup-delete_keys name cursor_keys left) (
          rw cut (
            rw (lookup-delete_keys name options.provider_secret_env_keys parent) (
              either (contains name cursor_keys) (contains name options.provider_secret_env_keys)
                (lookup name parent))))))
  where
    either :
        (a b : Bool) (other : Option Bytes)
        → latest name (own_variables options) (if a then none else if b then none else other)
          ≡ latest name (own_variables options) (if a || b then none else other)
    either true b other = refl
    either false b other = refl
