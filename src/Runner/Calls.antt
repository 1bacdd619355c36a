-- ===== src/Runner/Calls.antt =====
-- One tool call of a pass: the three ways in which it can go.
use cursor_cli_byok.Base.{
  ◌≡◌, true, false, inl, inr, List, [], ◌∷◌, ◌++◌, Bytes, ok, err, Error, Bool-cases, Result-cases,
  Option-cases,
}
use cursor_cli_byok.Go.Strings.{same, same_iff}
use cursor_cli_byok.Provider.{ToolCall, contains}
use cursor_cli_byok.Runner.Events.{Log, Environment, ToolResult, tool_call}
use cursor_cli_byok.Runner.Emits.{emit}
use cursor_cli_byok.Runner.Execute.{
  TurnState, tool_message, run_call, not_offered, repeated_id, other_result,
}

-- The state after the result of a call.
abbrev pub answered_state : ToolCall → ToolResult → TurnState → TurnState
answered_state call result st = record {
  turn_messages = st.turn_messages ++ tool_message call result ∷ [];
  delivered = call.id ∷ st.delivered;
}

-- The call was offered, and its ID is new.
abbrev pub IsDue : List Bytes → ToolCall → List Bytes → Type 0
IsDue allowed call delivered =
    (contains call.name allowed ≡ true) × (contains call.id delivered ≡ false)

module _ (env : Environment) (allowed : List Bytes) where
  pub data CallRun (call : ToolCall) (st : TurnState) (log : Log) : Type 0 where
    -- a check failed, and nothing was emitted
    refused : (e : Error) → run_call env allowed call st log ≡ (err e, log) → CallRun call st log
    -- the event was emitted, and the callback, the wait or the answer failed
    broken :
        (e : Error)
        → IsDue allowed call st.delivered
        → run_call env allowed call st log ≡ (err e, log ++ tool_call call ∷ [])
        → CallRun call st log
    answered :
        (result : ToolResult)
        → IsDue allowed call st.delivered
        → result.call_id ≡ call.id
        → run_call env allowed call st log
          ≡ (ok (answered_state call result st), log ++ tool_call call ∷ [])
        → CallRun call st log

  pub run_call_cases : (call : ToolCall) (st : TurnState) (log : Log) → CallRun call st log
  unfolding run_call emit
  run_call_cases call st log = elim (Bool-cases (contains call.name allowed)) [
    | inr unknown ↦ refused not_offered (rw (unknown, run_call))
    | inl offered ↦ elim (Bool-cases (contains call.id st.delivered)) [
      | inl again ↦ refused repeated_id (rw (offered, run_call) (rw again))
      | inr due ↦ elim (Option-cases (env.emit log (tool_call call))) [
        | inr (e, q) ↦ broken e (offered, due) (rw (offered, run_call) (rw due (rw (q, emit))))
        | inl q ↦ elim (Result-cases (env.await (log ++ tool_call call ∷ []) call)) [
          | inr (e, p) ↦
              broken e (offered, due) (rw (offered, run_call) (rw due (rw (q, emit) (rw p))))
          | inl (result, p) ↦ elim (Bool-cases (same result.call_id call.id)) [
            | inr differs ↦
                broken other_result (offered, due)
                  (rw (offered, run_call) (rw due (rw (q, emit) (rw p (rw differs)))))
            | inl agrees ↦
                answered result (offered, due) ((same_iff result.call_id call.id).0 agrees)
                  (rw (offered, run_call) (rw due (rw (q, emit) (rw p (rw agrees)))))
          ]
        ]
      ]
    ]
  ]
