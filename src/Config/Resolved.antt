-- ===== src/Config/Resolved.antt =====
-- Which models `ResolveModel` of internal/config/types.go finds.
use cursor_cli_byok.Base.{
  ◌≡◌, ◌⊎◌, Bool-cases, inl, inr, refl, true, false, Option, some, List, [], ◌∷◌, map, Bytes, ok,
  err, new, All, arith,
}
use cursor_cli_byok.Go.Strings.{is_empty, same, same_iff, trim_space}
use cursor_cli_byok.Provider.{contains}
use cursor_cli_byok.Config.{
  Net, Model, Config, ResolvedModel, protocol_openai, secret_of, resolved, resolve_among,
  selected_name, resolve_model, validate,
}
use cursor_cli_byok.Config.Valid.{IsModel, model_name, validate-IsConfig}

-- The model's key is in the model, or in a variable that is set.
abbrev pub IsSetIn : (Bytes → Bytes) → Model → Type 0
IsSetIn get m = (is_empty m.api_key_env ≡ true) ⊎ (is_empty (get m.api_key_env) ≡ false)

-- A model that was found: under the name, for the supported protocol, and with a key.
pub record IsFound (selected : Bytes) (r : ResolvedModel) : Type 0 where
  pub under_name : r.name ≡ selected
  pub speaks : r.protocol ≡ protocol_openai
  pub with_key : is_empty r.api_key ≡ false

filled : (key : Bytes) → is_empty (trim_space key) ≡ false → is_empty key ≡ false
unfolding trim_space
filled [] h = h
filled (b ∷ key) h = refl

only_here :
    (m : Model) (get : Bytes → Bytes)
    → IsModel m
    → IsSetIn get m
    → (secret : Bytes) × (secret_of (some get) m ≡ ok secret) × (is_empty secret ≡ false)
unfolding secret_of
only_here m get fits set = elim (Bool-cases (is_empty m.api_key_env)) [
  | inl q ↦
      let key : is_empty (trim_space m.api_key) ≡ false = ground (arith, fits.one_key, q) in
      (m.api_key, rw q refl, filled m.api_key key)
  | inr q ↦
      let there : is_empty (get m.api_key_env) ≡ false = ground (arith, set, q) in
      (get m.api_key_env, rw q (rw there refl), there)
]

resolve_among-finds :
    (models : List Model) (get : Bytes → Bytes) (selected : Bytes)
    → All IsModel models
    → All (IsSetIn get) models
    → contains selected (map model_name models) ≡ true
    → (r : ResolvedModel) × (resolve_among (some get) selected models ≡ ok r) × IsFound selected r
unfolding contains resolve_among
resolve_among-finds [] get selected fits set listed = absurd (cc listed)
resolve_among-finds (m ∷ models) get selected (fits, rest) (set, sets) listed =
    elim (Bool-cases (same m.name selected)) [
      | inl q ↦
          let (secret, found, nonempty) = only_here m get fits set in
          (
            resolved m secret,
            rw (q, resolve_among) (rw found refl),
            record {
              under_name = (same_iff m.name selected).0 q;
              speaks = fits.speaks;
              with_key = nonempty;
            },
          )
      | inr q ↦
          let (r, found, fine) =
            resolve_among-finds models get selected rest sets (ground (arith, listed, q)) in
          (r, rw (q, resolve_among) found, fine)
    ]

resolve_among-unknown :
    (models : List Model) (getenv : Option (Bytes → Bytes)) (selected : Bytes)
    → contains selected (map model_name models) ≡ false
    → resolve_among getenv selected models ≡ err (new "resolve model: model does not exist")
unfolding contains resolve_among
resolve_among-unknown [] getenv selected h = refl
resolve_among-unknown (m ∷ models) getenv selected h =
    let q : same m.name selected ≡ false = ground (arith, h) in
    rw (q, resolve_among) (resolve_among-unknown models getenv selected (ground (arith, h)))

-- Every model that an accepted configuration lists is resolved, and so is the default for the empty
-- name, if the variables are set that the models name: the result has the name that was selected,
-- the supported protocol and a key.
pub resolve_model-finds :
    (net : Net) (c : Config) (name : Bytes) (get : Bytes → Bytes)
    → validate net c ≡ ok tt
    → (name ≡ []) ⊎ (contains name (map model_name c.models) ≡ true)
    → All (IsSetIn get) c.models
    → (r : ResolvedModel) × (resolve_model net c name (some get) ≡ ok r)
      × IsFound (selected_name c name) r
unfolding resolve_model contains
resolve_model-finds net c [] get valid listed set =
    let fits = validate-IsConfig net c valid in
    let (r, found, fine) =
      resolve_among-finds c.models get c.default_model fits.models_fit set fits.default_named in
    (r, rw valid found, fine)
resolve_model-finds net c (b ∷ name) get valid (inl empty) set = absurd (cc empty)
resolve_model-finds net c (b ∷ name) get valid (inr listed) set =
    let fits = validate-IsConfig net c valid in
    let (r, found, fine) = resolve_among-finds c.models get (b ∷ name) fits.models_fit set listed in
    (r, rw valid found, fine)

-- A name that is not empty and that an accepted configuration does not list is refused, whatever the
-- environment.
pub resolve_model-unknown :
    (net : Net) (c : Config) (name : Bytes) (getenv : Option (Bytes → Bytes))
    → validate net c ≡ ok tt
    → is_empty name ≡ false
    → contains name (map model_name c.models) ≡ false
    → resolve_model net c name getenv ≡ err (new "resolve model: model does not exist")
unfolding resolve_model
resolve_model-unknown net c [] getenv valid some_name unknown = absurd (cc some_name)
resolve_model-unknown net c (b ∷ name) getenv valid some_name unknown =
    rw valid (resolve_among-unknown c.models getenv (b ∷ name) unknown)
