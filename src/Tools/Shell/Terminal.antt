-- ===== src/Tools/Shell/Terminal.antt =====
-- Which events of a shell end its call, in internal/protocol/tool_shell.go.
use cursor_cli_byok.Base.{
  ◌+◌, ◌≤◌, ◌≡◌, refl, sym, ◌⊎◌, inl, inr, Bool, true, false, not, Option, none, some, List, Bytes,
  Result, ok, subst, bind-eq-ok, ok_eq, map_err, ltb, ◌==◌, arith,
}
use cursor_cli_byok.Wire.Protowire.{Protowire}
use cursor_cli_byok.Wire.Fields.{
  WireField, decode_wire_fields, last_bytes_field, last_varint_field, or_zero,
}
use cursor_cli_byok.Protocol.Schema.Counted.{past, passed}
use cursor_cli_byok.Protocol.Client.{required}
use cursor_cli_byok.Tools.Types.{
  ToolResult, ShellEventKind, unknown_event, exit_event, rejected_event, permission_denied_event,
  backgrounded_event,
}
use cursor_cli_byok.Tools.Shell.Stream.{
  Matching, stdout_block, stderr_block, exit_block, start_block, rejected_block, permission_block,
  background_block, match_events, decode_shell_tool_result,
}

abbrev pub is_terminal : ShellEventKind → Bool
is_terminal exit_event = true
is_terminal rejected_event = true
is_terminal permission_denied_event = true
is_terminal backgrounded_event = true
is_terminal _ = false

abbrev pub is_known : ShellEventKind → Bool
is_known unknown_event = false
is_known _ = true

-- What one event makes of a result: it keeps the identity, and completes the call just if it is one
-- of the four that end it; only those are errors.
pub record IsEvent (before after : ToolResult) : Type 0 where
  pub same_message : after.message_id ≡ before.message_id
  pub same_exec : after.exec_id ≡ before.exec_id
  pub same_name : after.name ≡ before.name
  pub known : is_known after.shell_event ≡ true
  pub completes : before.complete ≡ false → after.complete ≡ is_terminal after.shell_event
  pub fails : before.is_error ≡ false → after.is_error ≡ true → is_terminal after.shell_event ≡ true

-- A block leaves everything as it is, or counts one event.
abbrev Steps : Matching → Matching → Type 0
Steps m out = (out ≡ m) ⊎ ((out.matched ≡ m.matched + 1) × IsEvent m.result out.result)

abbrev IsBlock : (Matching → Result Matching) → Type 0
IsBlock block = (m out : Matching) → block m ≡ ok out → Steps m out

skips : (m out : Matching) → ok m ≡ ok out → Steps m out
skips m out e = subst (Steps m) (ok_eq e) (inl refl)

-- An event that goes on.
continues :
    (before after : ToolResult)
    → (after.message_id ≡ before.message_id)
      × (after.exec_id ≡ before.exec_id)
      × (after.name ≡ before.name)
    → is_known after.shell_event ≡ true
    → is_terminal after.shell_event ≡ false
    → after.complete ≡ before.complete
    → after.is_error ≡ before.is_error
    → IsEvent before after
continues before after (p, q, r) known goes_on same same' = record {
  same_message = p;
  same_exec = q;
  same_name = r;
  known = known;
  completes = λ h. cc;
  fails = λ h e. absurd (cc);
}

-- An event that ends the call.
ends :
    (before after : ToolResult)
    → (after.message_id ≡ before.message_id)
      × (after.exec_id ≡ before.exec_id)
      × (after.name ≡ before.name)
    → is_known after.shell_event ≡ true
    → is_terminal after.shell_event ≡ true
    → after.complete ≡ true
    → IsEvent before after
ends before after (p, q, r) known over complete = record {
  same_message = p;
  same_exec = q;
  same_name = r;
  known = known;
  completes = λ h. cc;
  fails = λ h e. over;
}

start_block-IsBlock : (payload : Option Bytes) → IsBlock (start_block payload)
start_block-IsBlock none m out e = skips m out e
start_block-IsBlock (some payload) m out e =
    subst (Steps m) (ok_eq e)
      (inr (refl, continues m.result _ (refl, refl, refl) refl refl refl refl))

module _ ⦃w : Protowire⦄ where
  stdout_block-IsBlock : (payload : Option Bytes) → IsBlock (stdout_block payload)
  unfolding stdout_block
  stdout_block-IsBlock none m out e = skips m out e
  stdout_block-IsBlock (some payload) m out e =
      let (fields, wire, e1) = bind-eq-ok (map_err _ (decode_wire_fields payload)) _ e in
      subst (Steps m) (ok_eq e1)
        (inr (refl, continues m.result _ (refl, refl, refl) refl refl refl refl))

  stderr_block-IsBlock : (payload : Option Bytes) → IsBlock (stderr_block payload)
  unfolding stderr_block
  stderr_block-IsBlock none m out e = skips m out e
  stderr_block-IsBlock (some payload) m out e =
      let (fields, wire, e1) = bind-eq-ok (map_err _ (decode_wire_fields payload)) _ e in
      subst (Steps m) (ok_eq e1)
        (inr (refl, continues m.result _ (refl, refl, refl) refl refl refl refl))

  exit_block-IsBlock : (payload : Option Bytes) → IsBlock (exit_block payload)
  unfolding exit_block
  exit_block-IsBlock none m out e = skips m out e
  exit_block-IsBlock (some payload) m out e =
      let (fields, wire, e1) = bind-eq-ok (map_err _ (decode_wire_fields payload)) _ e in
      let wide = ltb 2147483647 (or_zero (last_varint_field fields 1)) in
      subst (Steps m) (ok_eq (past wide _ e1))
        (inr (refl, ends m.result _ (refl, refl, refl) refl refl refl))

  rejected_block-IsBlock : (payload : Option Bytes) → IsBlock (rejected_block payload)
  unfolding rejected_block
  rejected_block-IsBlock none m out e = skips m out e
  rejected_block-IsBlock (some payload) m out e =
      let (fields, wire, e1) = bind-eq-ok (map_err _ (decode_wire_fields payload)) _ e in
      subst (Steps m) (ok_eq e1) (inr (refl, ends m.result _ (refl, refl, refl) refl refl refl))

  permission_block-IsBlock : (payload : Option Bytes) → IsBlock (permission_block payload)
  unfolding permission_block
  permission_block-IsBlock none m out e = skips m out e
  permission_block-IsBlock (some payload) m out e =
      let (fields, wire, e1) = bind-eq-ok (map_err _ (decode_wire_fields payload)) _ e in
      subst (Steps m) (ok_eq e1) (inr (refl, ends m.result _ (refl, refl, refl) refl refl refl))

  background_block-IsBlock : (payload : Option Bytes) → IsBlock (background_block payload)
  unfolding background_block
  background_block-IsBlock none m out e = skips m out e
  background_block-IsBlock (some payload) m out e =
      let (fields, wire, e1) = bind-eq-ok (map_err _ (decode_wire_fields payload)) _ e in
      subst (Steps m) (ok_eq e1) (inr (refl, ends m.result _ (refl, refl, refl) refl refl refl))

  -- No event so far, one event, or more.
  abbrev Counts : ToolResult → Matching → Type 0
  Counts before m =
      ((m.matched ≡ 0) × (m.result ≡ before))
      ⊎ (((m.matched ≡ 1) × IsEvent before m.result) ⊎ (2 ≤ m.matched))

  step-Counts :
      (before : ToolResult) (m out : Matching) → Counts before m → Steps m out → Counts before out
  step-Counts before m out h (inl q) = subst (Counts before) (sym q) h
  step-Counts before m out (inl (nothing, q)) (inr (more, event)) =
      inr (inl (omega arith, subst (λ (r : ToolResult). IsEvent r out.result) q event))
  step-Counts before m out (inr (inl (one, _))) (inr (more, event)) = inr (inr (omega arith))
  step-Counts before m out (inr (inr many)) (inr (more, event)) = inr (inr (omega arith))

  match_events-Counts :
      (fields : List WireField) (before : ToolResult) {out : Matching}
      → match_events fields before ≡ ok out
      → Counts before out
  unfolding match_events
  match_events-Counts fields before {out} e =
      let (m1, q1, e1) = bind-eq-ok (stdout_block (last_bytes_field fields 1) _) _ e in
      let (m2, q2, e2) = bind-eq-ok (stderr_block (last_bytes_field fields 2) m1) _ e1 in
      let (m3, q3, e3) = bind-eq-ok (exit_block (last_bytes_field fields 3) m2) _ e2 in
      let (m4, q4, e4) = bind-eq-ok (start_block (last_bytes_field fields 4) m3) _ e3 in
      let (m5, q5, e5) = bind-eq-ok (rejected_block (last_bytes_field fields 5) m4) _ e4 in
      let (m6, q6, e6) = bind-eq-ok (permission_block (last_bytes_field fields 6) m5) _ e5 in
      let c1 = step-Counts before _ m1 (inl (refl, refl)) (stdout_block-IsBlock _ _ m1 q1) in
      let c2 = step-Counts before m1 m2 c1 (stderr_block-IsBlock _ m1 m2 q2) in
      let c3 = step-Counts before m2 m3 c2 (exit_block-IsBlock _ m2 m3 q3) in
      let c4 = step-Counts before m3 m4 c3 (start_block-IsBlock _ m3 m4 q4) in
      let c5 = step-Counts before m4 m5 c4 (rejected_block-IsBlock _ m4 m5 q5) in
      let c6 = step-Counts before m5 m6 c5 (permission_block-IsBlock _ m5 m6 q6) in
      step-Counts before m6 out c6 (background_block-IsBlock _ m6 out e6)

  -- Whatever the fields, a shell result that is decoded holds one event: it keeps the identity of the
  -- result it started from, its event is known, the call is complete just if the event is an exit, a
  -- rejection, a denied permission or a move to the background, and only such a result is an error;
  -- the last two if the result it started from was neither complete nor an error.
  pub decode_shell_tool_result-IsEvent :
      (exec_fields : List WireField) (before : ToolResult) {after : ToolResult}
      → decode_shell_tool_result exec_fields before ≡ ok after
      → IsEvent before after
  unfolding decode_shell_tool_result
  decode_shell_tool_result-IsEvent exec_fields before {after} e =
      let (payload, found, e1) = bind-eq-ok (required _ (last_bytes_field exec_fields 14)) _ e in
      let (fields, wire, e2) = bind-eq-ok (map_err _ (decode_wire_fields payload)) _ e1 in
      let started = record before { result_payload = payload } in
      let (m, matched, e3) = bind-eq-ok (match_events fields started) _ e2 in
      let other = not (m.matched == 1) in
      let one : m.matched ≡ 1 = ground (arith, passed other _ _ e3) in
      let event : IsEvent started m.result = elim (match_events-Counts fields started matched) [
        | inl (nothing, _) ↦ absurd (omega arith)
        | inr (inl (_, event)) ↦ event
        | inr (inr many) ↦ absurd (omega arith)
      ] in
      subst (λ (r : ToolResult). IsEvent before r) (ok_eq (past other _ e3))
        (record {
          same_message = event.same_message;
          same_exec = event.same_exec;
          same_name = event.same_name;
          known = event.known;
          completes = event.completes;
          fails = event.fails;
        })
