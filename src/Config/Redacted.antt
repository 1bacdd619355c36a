-- ===== src/Config/Redacted.antt =====
-- What `Model.String` and `ResolvedModel.String` of internal/config/types.go do not show.
use cursor_cli_byok.Base.{◌≡◌, refl, Bytes, length}
use cursor_cli_byok.Go.Strings.{is_empty}
use cursor_cli_byok.Go.Table.{Table}
use cursor_cli_byok.Config.{Model, ResolvedModel, show_model, show_resolved_model}

-- The text of a model is the same whatever its key and its headers are, if both keys are empty or
-- neither and the headers are as many; that of a resolved model is the same whatever its key and its
-- headers are, if the headers are as many.
pub redacts :
    (quote : Bytes → Bytes) (m : Model) (r : ResolvedModel) (key key' secret secret' : Bytes)
    (headers headers' : Table Bytes)
    → is_empty key ≡ is_empty key'
    → length headers ≡ length headers'
    → (show_model quote (record m { api_key = key; headers = headers })
        ≡ show_model quote (record m { api_key = key'; headers = headers' }))
      × (show_resolved_model quote (record r { api_key = secret; headers = headers })
          ≡ show_resolved_model quote (record r { api_key = secret'; headers = headers' }))
unfolding show_model show_resolved_model
redacts quote m r key key' secret secret' headers headers' as_filled as_many =
    (rw (as_filled, as_many) refl, rw as_many refl)
