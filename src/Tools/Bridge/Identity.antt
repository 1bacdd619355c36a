-- ===== src/Tools/Bridge/Identity.antt =====
-- Whose result it is that `DecodeToolResult` of internal/protocol/tool_bridge.go returns, and what
-- `EncodeToolCompleted` makes of it.
use cursor_cli_byok.Base.{
  ℕ, ◌%◌, ◌^◌, ◌≡◌, refl, true, false, not, ◌&&◌, ◌∷◌, ◌⊎◌, Bool-cases, map_err-eq_ok, inl, inr, [],
  Bytes, ok, ◌>>=◌, bind-eq-ok, map_err, ◌==◌, ==_iff, arith,
}
use cursor_cli_byok.Session.{ExecResultIdentity}
use cursor_cli_byok.Go.Strings.{is_empty, same, same_iff, trim_space}
use cursor_cli_byok.Wire.Protowire.{Protowire}
use cursor_cli_byok.Wire.Fields.{
  decode_wire_fields, last_bytes_field, last_varint_field, or_empty, or_zero,
}
use cursor_cli_byok.Protocol.Schema.Counted.{past, passed}
use cursor_cli_byok.Protocol.Client.{
  ClientMessage, ClientMessageKind, exec, run, kv, conversation_action, exec_control,
  interaction_response, heartbeat, prewarm, exec_client_payload, decode_exec_result_identity,
}
use cursor_cli_byok.Tools.Types.{ToolRequest, ToolResult, fresh_result, tool_kind}
use cursor_cli_byok.Tools.Json.{ToolJson}
use cursor_cli_byok.Tools.Requests.{validate_tool_request, completed_message}
use cursor_cli_byok.Tools.Bridge.Alike.{decode_result_of-IsAlike}
use cursor_cli_byok.Tools.Bridge.{
  is_exec_message, identity_differs, decode_tool_result, encode_display_of, encode_tool_completed,
}

is_exec_message-eq : (kind : ClientMessageKind) → not (is_exec_message kind) ≡ false → kind ≡ exec
unfolding is_exec_message
is_exec_message-eq exec h = refl
is_exec_message-eq run h = absurd (cc h)
is_exec_message-eq kv h = absurd (cc h)
is_exec_message-eq conversation_action h = absurd (cc h)
is_exec_message-eq exec_control h = absurd (cc h)
is_exec_message-eq interaction_response h = absurd (cc h)
is_exec_message-eq heartbeat h = absurd (cc h)
is_exec_message-eq prewarm h = absurd (cc h)

-- What a client may say of a request: its message ID or none, its exec ID or none, and not none of
-- both.
pub record Names (request : ToolRequest) (identity : ExecResultIdentity) : Type 0 where
  pub names_message : (identity.message_id ≡ 0) ⊎ (identity.message_id ≡ request.message_id)
  pub names_exec : (identity.exec_id ≡ []) ⊎ (identity.exec_id ≡ request.exec_id)

is_empty-eq : (s : Bytes) → is_empty s ≡ true → s ≡ []
is_empty-eq [] h = refl
is_empty-eq (a ∷ s) h = absurd (cc h)

identity_differs-Names :
    (request : ToolRequest) (message_id : ℕ) (exec_id : Bytes)
    → identity_differs request message_id exec_id ≡ false
    → Names request (record { message_id = message_id; exec_id = exec_id })
      × ((message_id == 0) && is_empty exec_id ≡ false)
unfolding identity_differs
identity_differs-Names request message_id exec_id h = (
  record {
    names_message = ground arith;
    names_exec = elim (Bool-cases (is_empty exec_id)) [
      | inl q ↦ inl (is_empty-eq exec_id q)
      | inr q ↦ inr ((same_iff exec_id request.exec_id).0 (ground arith))
    ];
  },
  ground arith,
)

module _ ⦃w : Protowire⦄ ⦃j : ToolJson⦄ where
  -- A result for a request: the client's message names the request, and the result carries the
  -- request's message ID, exec ID and tool.
  pub record IsAnswer (message : ClientMessage) (request : ToolRequest) (result : ToolResult)
      : Type 0 where
    pub identity : ExecResultIdentity
    pub is_read : decode_exec_result_identity message ≡ ok identity
    pub is_named : Names request identity
    pub same_message : result.message_id ≡ request.message_id
    pub same_exec : result.exec_id ≡ request.exec_id
    pub same_name : result.name ≡ request.name

  -- Whatever the message, a result that is decoded for a request is the request's:
  -- `DecodeExecResultIdentity` reads an identity from the message, whose message ID is none or the
  -- request's and whose exec ID is none or the request's, and the result has the message ID, the
  -- exec ID and the name of the request.
  pub decode_tool_result-IsAnswer :
      (message : ClientMessage) (request : ToolRequest) {result : ToolResult}
      → decode_tool_result message request ≡ ok result
      → IsAnswer message request result
  unfolding decode_tool_result decode_exec_result_identity
  decode_tool_result-IsAnswer message request e =
      let (fine, valid, e1) = bind-eq-ok (validate_tool_request request) _ e in
      let other = not (is_exec_message message.kind) in
      let is_exec = is_exec_message-eq message.kind (passed other _ _ e1) in
      let e2 = past other _ e1 in
      let (payload, opened, e3) = bind-eq-ok (exec_client_payload message.raw) _ e2 in
      let (fields, wire, e4) = bind-eq-ok (map_err _ (decode_wire_fields payload)) _ e3 in
      let wire' = map_err-eq_ok _ (decode_wire_fields payload) wire in
      let message_id = or_zero (last_varint_field fields 1) % 2 ^ 32 in
      let exec_id = trim_space (or_empty (last_bytes_field fields 15)) in
      let differs = identity_differs request message_id exec_id in
      let (names, known) =
        identity_differs-Names request message_id exec_id (passed differs _ _ e4) in
      let (p, q, r) =
        decode_result_of-IsAlike (tool_kind request.name) fields request (fresh_result request)
          (past differs _ e4) in
      record {
        identity = record { message_id = message_id; exec_id = exec_id };
        is_read = rw is_exec (rw opened (rw wire' (rw known refl)));
        is_named = names;
        same_message = p;
        same_exec = q;
        same_name = r;
      }

  -- A result that was decoded for a request and is complete is never refused as another's:
  -- completing the request gives what its tool shows of the result, around which the update is made,
  -- or the error of that tool.
  pub encode_tool_completed-decode :
      (message : ClientMessage) (request : ToolRequest) {result : ToolResult}
      → decode_tool_result message request ≡ ok result
      → result.complete ≡ true
      → encode_tool_completed request result ≡ (
          encode_display_of (tool_kind request.name) request result >>= λ tool_call.
          ok (completed_message request.call_id tool_call))
  unfolding encode_tool_completed decode_tool_result
  encode_tool_completed-decode message request {result} e done =
      let answer = decode_tool_result-IsAnswer message request e in
      let (fine, valid, e1) = bind-eq-ok (validate_tool_request request) _ e in
      let same_id : result.message_id == request.message_id ≡ true =
        (==_iff result.message_id request.message_id).1 answer.same_message in
      let same_exec : same result.exec_id request.exec_id ≡ true =
        (same_iff result.exec_id request.exec_id).1 answer.same_exec in
      let same_name : same result.name request.name ≡ true =
        (same_iff result.name request.name).1 answer.same_name in
      rw valid (rw same_id (rw same_exec (rw same_name (rw done refl))))
