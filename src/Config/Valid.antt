-- ===== src/Config/Valid.antt =====
-- What a configuration keeps to that `Validate` of internal/config/types.go accepts.
use cursor_cli_byok.Base.{
  ◌≡◌, ◌⊎◌, Error, refl, sym, ◌∙◌, Bool, Bool-cases, inl, inr, true, false, not, ◌&&◌, ◌||◌, List,
  [], ◌∷◌, map, Bytes, Outcome, Result, ok, err, bind-eq-ok, ok_eq, All, arith, refuse_if, ◌>>◌,
  length, ◌==◌,
}
use cursor_cli_byok.Go.Strings.{is_empty, same, same_iff, trim_space, has_padding, has_control}
use cursor_cli_byok.Provider.{contains}
use cursor_cli_byok.Protocol.Schema.Counted.{past, passed}
use cursor_cli_byok.Config.{
  Net, Model, Config, protocol_openai, endpoint_responses, endpoint_chat_completions, validate_url,
  both_alike, validate_name, validate_address, validate_upstream, validate_config_models, validate,
  is_current,
}

-- A model has a name, speaks a protocol and an endpoint that are supported, and has its key in
-- one place.
pub record IsModel (m : Model) : Type 0 where
  pub named : is_empty m.name ≡ false
  pub speaks : m.protocol ≡ protocol_openai
  pub reaches : (m.endpoint ≡ endpoint_responses) ⊎ (m.endpoint ≡ endpoint_chat_completions)
  pub one_key :
      both_alike (not (is_empty (trim_space m.api_key))) (not (is_empty m.api_key_env)) ≡ false

abbrev pub model_name : Model → Bytes
model_name m = m.name

-- No name stands among those before it.
abbrev pub Differ : List Bytes → List Model → Type 0
Differ seen [] = Unit
Differ seen (m ∷ models) = (contains m.name seen ≡ false) × Differ (m.name ∷ seen) models

-- `check >> rest` that is accepted: both are.
both_pass :
    {A : Type 0} {a : A} (check : Outcome) (rest : Result A)
    → (check >> rest) ≡ ok a
    → (check ≡ ok tt) × (rest ≡ ok a)
both_pass (ok tt) rest e = (refl, e)
both_pass (err x) rest e = absurd (cc e)

not-false : (b : Bool) → not b ≡ false → b ≡ true
not-false true h = refl
not-false false h = absurd (cc h)

-- The last check of a function.
refused-false : (b : Bool) (x : Error) → refuse_if b x ≡ ok tt → b ≡ false
refused-false false x h = refl
refused-false true x h = absurd (cc h)

validate_name-filled : (m : Model) → validate_name m ≡ ok tt → is_empty m.name ≡ false
unfolding validate_name
validate_name-filled m e = passed (is_empty m.name) _ _ e

endpoint_cases :
    (m : Model)
    → not (same m.endpoint endpoint_responses) && not (same m.endpoint endpoint_chat_completions)
      ≡ false
    → (m.endpoint ≡ endpoint_responses) ⊎ (m.endpoint ≡ endpoint_chat_completions)
endpoint_cases m h = elim (Bool-cases (same m.endpoint endpoint_responses)) [
  | inl q ↦ inl ((same_iff m.endpoint endpoint_responses).0 q)
  | inr q ↦ inr ((same_iff m.endpoint endpoint_chat_completions).0 (ground arith))
]

validate_address-speaks :
    (net : Net) (m : Model)
    → validate_address net m ≡ ok tt
    → (m.protocol ≡ protocol_openai)
      × ((m.endpoint ≡ endpoint_responses) ⊎ (m.endpoint ≡ endpoint_chat_completions))
unfolding validate_address
validate_address-speaks net m e =
    let other = not (same m.protocol protocol_openai) in
    let e1 = past (has_padding m.protocol) _ (past (is_empty m.protocol) _ e) in
    let speaks = (same_iff m.protocol protocol_openai).0 (not-false _ (passed other _ _ e1)) in
    let e2 = past (has_padding m.base_url) _ (past (is_empty m.base_url) _ (past other _ e1)) in
    let e3 = (both_pass (validate_url net (net.parse_url m.base_url)) _ e2).1 in
    let e4 = past (has_padding m.endpoint) _ (past (is_empty m.endpoint) _ e3) in
    (speaks, endpoint_cases m (refused-false _ _ e4))

validate_upstream-one_key :
    (m : Model)
    → validate_upstream m ≡ ok tt
    → both_alike (not (is_empty (trim_space m.api_key))) (not (is_empty m.api_key_env)) ≡ false
unfolding validate_upstream
validate_upstream-one_key m e =
    let e1 = past (is_empty m.upstream_model) _ e in
    let e2 = past (has_padding m.upstream_model) _ e1 in
    let e3 = past (has_control m.upstream_model) _ e2 in
    let e4 = past (not (is_empty m.api_key_env) && has_padding m.api_key_env) _ e3 in
    passed (both_alike (not (is_empty (trim_space m.api_key))) (not (is_empty m.api_key_env))) _ _
      e4

-- The models that are accepted, and the names that are collected.
validated_models :
    (net : Net) (seen : List Bytes) (models : List Model) {names : List Bytes}
    → validate_config_models net seen models ≡ ok names
    → All IsModel models
      × Differ seen models
      × ((name : Bytes)
          → contains name names ≡ contains name seen || contains name (map model_name models))
unfolding validate_config_models contains
validated_models net seen [] e = (tt, tt, λ name. rw (← ok_eq e) (ground arith))
validated_models net seen (m ∷ models) e =
    let (named, e1) = both_pass (validate_name m) _ e in
    let fresh = passed (contains m.name seen) _ _ e1 in
    let e2 = past (contains m.name seen) _ e1 in
    let (address, e3) = both_pass (validate_address net m) _ e2 in
    let (upstream, e4) = both_pass (validate_upstream m) _ e3 in
    let (speaks, reaches) = validate_address-speaks net m address in
    let (fine, differ, found) = validated_models net (m.name ∷ seen) models e4 in
    let fits : IsModel m = record {
      named = validate_name-filled m named;
      speaks = speaks;
      reaches = reaches;
      one_key = validate_upstream-one_key m upstream;
    } in
    ((fits, fine), (fresh, differ), λ name. ground (arith, found name))

-- A configuration that is valid: its models are, their names differ, and the default is one of them.
pub record IsConfig (c : Config) : Type 0 where
  pub versioned : is_current c.version ≡ true
  pub models_fit : All IsModel c.models
  pub names_differ : Differ [] c.models
  pub default_named : contains c.default_model (map model_name c.models) ≡ true

-- A configuration that is accepted has the current version, models with a name, the supported
-- protocol and endpoint and a key in just one place, names that differ, and the default among them.
pub validate-IsConfig : (net : Net) (c : Config) → validate net c ≡ ok tt → IsConfig c
unfolding validate contains
validate-IsConfig net c e =
    let old = not (is_current c.version) in
    let e1 = past old _ e in
    let e2 = past (has_padding c.default_model) _ (past (is_empty c.default_model) _ e1) in
    let e3 = past (length c.models == 0) _ e2 in
    let (names, collected, e4) = bind-eq-ok (validate_config_models net [] c.models) _ e3 in
    let (fine, differ, found) = validated_models net [] c.models collected in
    record {
      versioned = not-false _ (passed old _ _ e);
      models_fit = fine;
      names_differ = differ;
      default_named = sym (found c.default_model) ∙ not-false _ (refused-false _ _ e4);
    }
