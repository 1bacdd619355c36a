-- ===== src/Protocol/Client/Runs.antt =====
-- What the run requests keep to that are decoded.
use cursor_cli_byok.Base.{
  ◌≡◌, ◌⊎◌, inl, inr, refl, subst, Bool, true, false, not, Option, none, some, List, Bytes, ok,
  map_err, bind-eq-ok, ok_eq,
}
use cursor_cli_byok.Go.Strings.{is_empty, trim_space}
use cursor_cli_byok.Runner.Events.{RunRequest}
use cursor_cli_byok.Wire.Protowire.{Protowire}
use cursor_cli_byok.Wire.Fields.{WireField, decode_wire_fields, last_bytes_field}
use cursor_cli_byok.Protocol.Text.{valid_identifier}
use cursor_cli_byok.Protocol.Schema.{JsonValue}
use cursor_cli_byok.Protocol.Schema.Counted.{past, passed}
use cursor_cli_byok.Protocol.Mcp.{decode_mcp_tools}
use cursor_cli_byok.Protocol.Mcp.Names.{IsToolList, decode_mcp_tools-IsToolList}
use cursor_cli_byok.Protocol.Client.{
  required, or_else, decode_run_names, decode_user_message,
  validate_background_task_completion_action, decode_run_action, decode_run_request,
}

-- A run request names its conversation and its model, has a text unless it is only metadata, and
-- brings MCP tools of different names.
pub record IsRun (r : RunRequest) : Type 0 where
  pub conversation_fits : valid_identifier r.conversation_id ≡ true
  pub model_fits : valid_identifier r.model_id ≡ true
  pub text_fits : (r.metadata_only ≡ true) ⊎ (is_empty (trim_space r.user_text) ≡ false)
  pub tools_fit : IsToolList r.mcp_tools

abbrev NamesFit : Bytes × Bytes → Type 0
NamesFit names = (valid_identifier names.0 ≡ true) × (valid_identifier names.1 ≡ true)

not-false : (b : Bool) → not b ≡ false → b ≡ true
not-false true h = refl
not-false false h = absurd (cc h)

module _ ⦃w : Protowire⦄ where
  decode_run_names-NamesFit :
      (fields : List WireField) {names : Bytes × Bytes}
      → decode_run_names fields ≡ ok names
      → NamesFit names
  unfolding decode_run_names
  decode_run_names-NamesFit fields e =
      let (conversation, found, e1) = bind-eq-ok (required _ (last_bytes_field fields 5)) _ e in
      let named = passed (not (valid_identifier (trim_space conversation))) _ _ e1 in
      let e2 = past (not (valid_identifier (trim_space conversation))) _ e1 in
      let (message, found', e3) =
        bind-eq-ok (required _ (or_else (last_bytes_field fields 9) (last_bytes_field fields 3))) _
          e2 in
      let (model_fields, wire, e4) = bind-eq-ok (map_err _ (decode_wire_fields message)) _ e3 in
      let (model, found'', e5) = bind-eq-ok (required _ (last_bytes_field model_fields 1)) _ e4 in
      let named' = passed (not (valid_identifier (trim_space model))) _ _ e5 in
      subst NamesFit (ok_eq (past (not (valid_identifier (trim_space model))) _ e5))
        (not-false _ named, not-false _ named')

  decode_user_message_text :
      (action : Bytes) {r : Bytes × Bytes}
      → decode_user_message action ≡ ok r
      → is_empty (trim_space r.0) ≡ false
  unfolding decode_user_message
  decode_user_message_text action e =
      let (action_fields, wire, e1) = bind-eq-ok (map_err _ (decode_wire_fields action)) _ e in
      let (message, found, e2) = bind-eq-ok (required _ (last_bytes_field action_fields 1)) _ e1 in
      let (fields, wire', e3) = bind-eq-ok (map_err _ (decode_wire_fields message)) _ e2 in
      let (text, found', e4) = bind-eq-ok (required _ (last_bytes_field fields 1)) _ e3 in
      let filled = passed (is_empty (trim_space text)) _ _ e4 in
      subst (λ (p : Bytes × Bytes). is_empty (trim_space p.0) ≡ false)
        (ok_eq (past (is_empty (trim_space text)) _ e4)) filled

  module _ (marshal : JsonValue → Option Bytes) where
    decode_run_action-IsRun :
        (fields : List WireField) (names : Bytes × Bytes) (user completion : Option Bytes)
        {r : RunRequest}
        → NamesFit names
        → decode_run_action marshal fields names user completion ≡ ok r
        → IsRun r
    unfolding decode_run_action
    decode_run_action-IsRun fields (conversation, model) (some user) (some completion) h e =
        absurd (cc e)
    decode_run_action-IsRun fields (conversation, model) none none h e = absurd (cc e)
    decode_run_action-IsRun fields (conversation, model) none (some completion) h e =
        let (fine, valid, e1) =
          bind-eq-ok (validate_background_task_completion_action completion) _ e in
        let (tools, decoded, e2) = bind-eq-ok (decode_mcp_tools marshal fields) _ e1 in
        subst IsRun (ok_eq e2) (record {
          conversation_fits = h.0;
          model_fits = h.1;
          text_fits = inl refl;
          tools_fit = decode_mcp_tools-IsToolList marshal fields decoded;
        })
    decode_run_action-IsRun fields (conversation, model) (some user) none h e =
        let ((text, message_id), read, e1) = bind-eq-ok (decode_user_message user) _ e in
        let (tools, decoded, e2) = bind-eq-ok (decode_mcp_tools marshal fields) _ e1 in
        subst IsRun (ok_eq e2) (record {
          conversation_fits = h.0;
          model_fits = h.1;
          text_fits = inr (decode_user_message_text user read);
          tools_fit = decode_mcp_tools-IsToolList marshal fields decoded;
        })

    -- Whatever the bytes, a run request that is decoded has a valid conversation ID and a valid
    -- model ID, a text that is not blank unless it is only metadata, and MCP tools of different
    -- names.
    pub decode_run_request-IsRun :
        (payload : Bytes) {r : RunRequest} → decode_run_request marshal payload ≡ ok r → IsRun r
    unfolding decode_run_request
    decode_run_request-IsRun payload e =
        let (fields, wire, e1) = bind-eq-ok (map_err _ (decode_wire_fields payload)) _ e in
        let (names, named, e2) = bind-eq-ok (decode_run_names fields) _ e1 in
        let (action, found, e3) = bind-eq-ok (required _ (last_bytes_field fields 2)) _ e2 in
        let (action_fields, wire', e4) = bind-eq-ok (map_err _ (decode_wire_fields action)) _ e3 in
        decode_run_action-IsRun fields names (last_bytes_field action_fields 1)
          (last_bytes_field action_fields 12) (decode_run_names-NamesFit fields named) e4
