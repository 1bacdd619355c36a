-- ===== src/Runner/Shape.antt =====
-- The messages that a finished turn adds to the history.
use cursor_cli_byok.Base.{
  ℕ, zero, suc, ◌-◌, ◌≡◌, ◌≢◌, refl, ap, ◌∙◌, inl, inr, List, [], ◌∷◌, ◌++◌, append_assoc,
  append-nil, Bytes, ok, Bool-cases, arith, wrap, map_err,
}
use cursor_cli_byok.Go.Strings.{is_empty}
use cursor_cli_byok.Provider.{ToolCall, Message, assistant, tool, Tool, validate_request}
use cursor_cli_byok.Runner.Events.{Log, Environment, TokenUsage, RunRequest, ToolResult, no_usage}
use cursor_cli_byok.Runner.Emits.{bind-eq-ok, ◌>>=◌, lift}
use cursor_cli_byok.Runner.Pass.{PassResult, run_provider_pass}
use cursor_cli_byok.Runner.Calls.{refused, broken, answered, run_call_cases}
use cursor_cli_byok.Runner.Execute.{
  TurnState, Resolved, tool_message, assistant_message, allowed_names, run_call, run_calls,
  after_pass, run_passes, run_turn, resolve, Continuation, pass_request, user_message, add_usage,
}

-- The results stand in the order of the calls, one for each, under its ID.
abbrev pub Answers : List ToolCall → List Message → Type 0
Answers [] [] = Unit
Answers [] (_ ∷ _) = ⊥
Answers (_ ∷ _) [] = ⊥
Answers (call ∷ calls) (m ∷ ms) =
    (m.role ≡ tool) × (m.tool_call_id ≡ call.id) × (m.tool_calls ≡ []) × Answers calls ms

-- What follows the user's message: rounds of tool calls with their results, and a last text.
pub data IsReply : List Message → Type 0 where
  final :
      {messages : List Message} (content : Bytes)
      → content ≢ []
      → messages
        ≡ record { role = assistant; content = content; tool_calls = []; tool_call_id = [] } ∷ []
      → IsReply messages
  round :
      {messages : List Message} (content : Bytes) (calls : List ToolCall)
      (results rest : List Message)
      → calls ≢ []
      → Answers calls results
      → IsReply rest
      → messages
        ≡ record { role = assistant; content = content; tool_calls = calls; tool_call_id = [] }
          ∷ (results ++ rest)
      → IsReply messages

module _ (env : Environment) (allowed : List Bytes) where
  run_call_ok :
      (call : ToolCall) (st : TurnState) (log : Log) {st' : TurnState} {log' : Log}
      → run_call env allowed call st log ≡ (ok st', log')
      → (result : ToolResult) × (st'.turn_messages
          ≡ st.turn_messages ++ tool_message call result ∷ [])
  run_call_ok call st log e = elim (run_call_cases env allowed call st log) [
    | refused x q ↦ absurd (cc (rw q at e))
    | broken x due q ↦ absurd (cc (rw q at e))
    | answered result due id q ↦ (result, ground (arith, q, e))
  ]

  run_calls_ok :
      (calls : List ToolCall) (st : TurnState) (log : Log) {st' : TurnState} {log' : Log}
      → run_calls env allowed calls st log ≡ (ok st', log')
      → (results : List Message) × (st'.turn_messages ≡ st.turn_messages ++ results)
        × Answers calls results
  unfolding run_calls
  run_calls_ok [] st log e = ([], ground (arith, append-nil st.turn_messages), tt)
  run_calls_ok (call ∷ calls) st log e =
      let (st₁, mid, first, later) =
        bind-eq-ok (run_call env allowed call st) (λ s. run_calls env allowed calls s) log e in
      let (result, q) = run_call_ok call st log first in
      let (results, q', answers) = run_calls_ok calls st₁ mid later in
      (
        tool_message call result ∷ results,
        q'
            ∙ ap (λ ms. ms ++ results) q
            ∙ append_assoc st.turn_messages (tool_message call result ∷ []) results,
        (refl, refl, refl, answers),
      )

-- A finished turn goes on from the messages so far by a reply.
abbrev Finishes : TurnState → List Message → Type 0
Finishes st turn = (reply : List Message) × (turn ≡ st.turn_messages ++ reply) × IsReply reply

module _ (env : Environment) (r : Resolved) where
  after_pass_ok :
      (st : TurnState) (total : TokenUsage) (go : Continuation) (calls : List ToolCall)
      (pass : PassResult) (log : Log) {turn : List Message} {sum : TokenUsage} {log' : Log}
      → pass.tool_calls ≡ calls
      → ((st' : TurnState) (total' : TokenUsage) (mid : Log)
          → go st' total' mid ≡ (ok (turn, sum), log')
          → Finishes st' turn)
      → after_pass env r st total go calls pass log ≡ (ok (turn, sum), log')
      → Finishes st turn
  unfolding after_pass
  after_pass_ok st total go [] pass log {turn} none_left later e =
      elim (Bool-cases (is_empty pass.text)) [
        | inl empty ↦ absurd (cc (rw empty at e))
        | inr some_text ↦ (
          assistant_message pass ∷ [],
          ground (arith, some_text, e),
          final pass.text (ground (arith, some_text)) (rw none_left),
        )
      ]
  after_pass_ok st total go (c ∷ cs) pass log some_left later e =
      let st₀ : TurnState = record st {
        turn_messages = st.turn_messages ++ assistant_message pass ∷ [];
      } in
      let (st₁, mid, ran, rest) =
        bind-eq-ok (run_calls env (allowed_names r) pass.tool_calls st₀)
          (λ s. go s (add_usage total pass.usage)) log e in
      let (results, q, answers) = run_calls_ok env (allowed_names r) pass.tool_calls st₀ log ran in
      let (reply, p, replies) = later st₁ (add_usage total pass.usage) mid rest in
      (
        assistant_message pass ∷ (results ++ reply),
        p
            ∙ ap (λ ms. ms ++ reply) q
            ∙ append_assoc (st.turn_messages ++ assistant_message pass ∷ []) results reply
            ∙ append_assoc st.turn_messages (assistant_message pass ∷ []) (results ++ reply),
        round pass.text pass.tool_calls results reply (λ z. cc (some_left, z)) answers replies refl,
      )

  run_passes_ok :
      (rounds : ℕ) (st : TurnState) (total : TokenUsage) (log : Log) {turn : List Message}
      {sum : TokenUsage} {log' : Log}
      → run_passes env r rounds st total log ≡ (ok (turn, sum), log')
      → Finishes st turn
  unfolding run_passes
  run_passes_ok zero st total log e = absurd (cc e)
  run_passes_ok (suc rounds) st total log e =
      let (fine, mid, valid, rest) =
        bind-eq-ok
          (lift (map_err (wrap "execute agent turn") (validate_request (pass_request r st))))
          (λ _. run_provider_pass env (16 - suc rounds) (pass_request r st) >>= λ p.
            after_pass env r st total (run_passes env r rounds) p.tool_calls p)
          log e in
      let (pass, mid', ran, end) =
        bind-eq-ok (run_provider_pass env (16 - suc rounds) (pass_request r st))
          (λ p. after_pass env r st total (run_passes env r rounds) p.tool_calls p) mid rest in
      after_pass_ok st total (run_passes env r rounds) pass.tool_calls pass mid' refl
        (λ st' total' m h. run_passes_ok rounds st' total' m h) end

-- A turn that succeeds is the user's message and a reply: any number of rounds, each an assistant
-- message with tool calls and exactly one result for each call in the order of the calls, and at
-- the end an assistant message with a text and no calls.
pub run_turn-IsReply :
    (env : Environment) (static : List Tool) (run : RunRequest) (base : List Message) (log : Log)
    {turn : List Message} {sum : TokenUsage} {log' : Log}
    → run_turn env static run base log ≡ (ok (turn, sum), log')
    → (reply : List Message) × (turn ≡ user_message run ∷ reply) × IsReply reply
unfolding run_turn
run_turn-IsReply env static run base log e =
    let (r, mid, resolved, rest) =
      bind-eq-ok (resolve env static run base)
        (λ r.
          run_passes env r 16 (record { turn_messages = user_message run ∷ []; delivered = [] })
            no_usage)
        log e in
    run_passes_ok env r 16 (record { turn_messages = user_message run ∷ []; delivered = [] })
      no_usage mid rest
