-- ===== src/Runner/History.antt =====
-- What `Runner.Execute` does to the history of its conversation.
use cursor_cli_byok.Base.{
  ◌≡◌, refl, true, Option, none, some, List, ◌∷◌, Result, Outcome, ok, err, Error, ap, sym, subst,
}
use cursor_cli_byok.Provider.{Message, Tool}
use cursor_cli_byok.Conversation.{Registry, acquire, release, append_turn}
use cursor_cli_byok.Runner.Events.{Log, Environment, RunRequest, TokenUsage}
use cursor_cli_byok.Runner.Tools.{validate_run_request}
use cursor_cli_byok.Runner.Shape.{IsReply, run_turn-IsReply}
use cursor_cli_byok.Runner.Execute.{
  execute, execute_held, no_conversation, run_turn, end_turn, user_message, history,
}

-- How an execution can leave the registry, beside its result.
pub data Ending (run : RunRequest) (before : Registry) (outcome : Outcome) (after : Registry)
    : Type 0 where
  -- refused before the conversation is acquired: nothing changes
  refused : (e : Error) → outcome ≡ err e → after ≡ before → Ending run before outcome after
  -- failed while the conversation was held: it is released, and its turns are not touched
  failed :
      (e : Error) (held : Registry)
      → outcome ≡ err e
      → acquire run.conversation_id true before ≡ some held
      → after ≡ release run.conversation_id held
      → Ending run before outcome after
  -- one whole turn was appended before the release
  appended :
      (held : Registry) (reply : List Message)
      → acquire run.conversation_id true before ≡ some held
      → IsReply reply
      → after
        ≡ release run.conversation_id
            (append_turn run.conversation_id (user_message run ∷ reply) held)
      → Ending run before outcome after

module _ (env : Environment) (static : List Tool) (run : RunRequest) (registry : Registry)
    (log : Log) where
  abbrev Ends : Outcome × Registry × Log → Type 0
  Ends r = Ending run registry r.0 r.1

  execute_held-Ends :
      (held : Registry)
      → acquire run.conversation_id true registry ≡ some held
      → Ends (execute_held env static run held log)
  unfolding execute_held
  execute_held-Ends held h =
      go (run_turn env static run (history run.conversation_id held) log) refl
    where
      go :
          (turn : Result (List Message × TokenUsage) × Log)
          → run_turn env static run (history run.conversation_id held) log ≡ turn
          → Ending run registry
              (end_turn env run.conversation_id turn.0 held turn.1).0
              (release run.conversation_id (end_turn env run.conversation_id turn.0 held turn.1).1)
      go (err e, log') q = unfold end_turn in failed e held refl h refl
      go (ok (turn, total), log') q =
          let (reply, whole, replies) =
            run_turn-IsReply env static run (history run.conversation_id held) log q in
          unfold end_turn in
          appended held reply h replies
            (ap (λ t. release run.conversation_id (append_turn run.conversation_id t held)) whole)

  -- The guards of `execute`, in their order.
  execute-Ends : Ends (execute env static run registry log)
  unfolding execute
  execute-Ends =
      go (validate_run_request run) (env.ctx_err 0 log) (acquire run.conversation_id true registry)
        refl refl refl
    where
      go :
          (v : Outcome) (c : Option Error) (a : Option Registry)
          → validate_run_request run ≡ v
          → env.ctx_err 0 log ≡ c
          → acquire run.conversation_id true registry ≡ a
          → Ends (execute env static run registry log)
      go (err e) c a v q h =
          let stops : execute env static run registry log ≡ (err e, registry, log) =
            rw (v, execute) in
          subst Ends (sym stops) (refused e refl refl)
      go (ok u) (some e) a v q h =
          let stops : execute env static run registry log ≡ (err e, registry, log) =
            rw (v, execute) (rw q) in
          subst Ends (sym stops) (refused e refl refl)
      go (ok u) none none v q h =
          let stops : execute env static run registry log ≡ (err no_conversation, registry, log) =
            rw (v, execute) (rw q (rw h)) in
          subst Ends (sym stops) (refused no_conversation refl refl)
      go (ok u) none (some held) v q h =
          let goes_on : execute env static run registry log ≡ execute_held env static run held log =
            rw (v, execute) (rw q (rw h)) in
          subst Ends (sym goes_on) (execute_held-Ends held h)

-- An execution appends a whole turn, the user's message and a reply as `run_turn-IsReply` has it,
-- or it returns an error and appends nothing; and it releases the conversation that it acquired.
pub execute_all_or_nothing :
    (env : Environment) (static : List Tool) (run : RunRequest) (registry : Registry) (log : Log)
    → Ending run registry
        (execute env static run registry log).0
        (execute env static run registry log).1
execute_all_or_nothing env static run registry log = execute-Ends env static run registry log
