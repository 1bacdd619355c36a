-- ===== src/Runner/Delivery.antt =====
-- The tool calls that a turn emits, whether it succeeds or not.
use cursor_cli_byok.Base.{
  ℕ, zero, suc, ◌-◌, ◌≡◌, refl, sym, ap, ◌∙◌, true, false, inl, inr, List, [], ◌∷◌, ◌++◌,
  append_assoc, append-nil, Bytes, Result, ok, err, Bool-cases, Result-cases, Option-cases, arith,
  wrap, map_err, map, All,
}
use cursor_cli_byok.Go.Strings.{is_empty}
use cursor_cli_byok.Provider.{
  ToolCall, Message, Tool, contains, validate_request, validate_event, Event, Request,
}
use cursor_cli_byok.Provider.Validity.{IsDistinct, contains-IsFresh}
use cursor_cli_byok.Runner.Events.{
  Log, Environment, text_delta, reasoning_delta, tool_call, usage, TokenUsage, RunRequest, no_usage,
}
use cursor_cli_byok.Runner.Emits.{Emits, continue}
use cursor_cli_byok.Runner.Pass.{
  PassState, PassResult, accept, receive, receive_all, run_provider_pass,
}
use cursor_cli_byok.Runner.Calls.{refused, broken, answered, run_call_cases}
use cursor_cli_byok.Runner.Tools.{merge_run_tools}
use cursor_cli_byok.Runner.Execute.{
  TurnState, Resolved, Continuation, pass_request, allowed_names, run_call, run_calls, after_pass,
  run_passes, run_turn, resolve, user_message, assistant_message, add_usage,
}

-- The tool calls of a log, the latest first, before those given.
abbrev pub calls_onto : List ToolCall → Log → List ToolCall
calls_onto calls [] = calls
calls_onto calls (text_delta _ ∷ log) = calls_onto calls log
calls_onto calls (reasoning_delta _ ∷ log) = calls_onto calls log
calls_onto calls (usage _ ∷ log) = calls_onto calls log
calls_onto calls (tool_call c ∷ log) = calls_onto (c ∷ calls) log

calls_onto-append :
    (calls : List ToolCall) (log more : Log)
    → calls_onto calls (log ++ more) ≡ calls_onto (calls_onto calls log) more
calls_onto-append calls [] more = refl
calls_onto-append calls (text_delta _ ∷ log) more = calls_onto-append calls log more
calls_onto-append calls (reasoning_delta _ ∷ log) more = calls_onto-append calls log more
calls_onto-append calls (usage _ ∷ log) more = calls_onto-append calls log more
calls_onto-append calls (tool_call c ∷ log) more = calls_onto-append (c ∷ calls) log more

abbrev pub call_id : ToolCall → Bytes
call_id c = c.id

-- Behind `base` the log has these calls, the latest first: each was offered, and no ID is there twice.
pub record IsLegal (allowed : List Bytes) (base : Log) (calls : List ToolCall) (log : Log)
    : Type 0 where
  pub events : Log
  pub splits : log ≡ base ++ events
  pub calls_are : calls_onto [] events ≡ calls
  pub offered : All (λ c. contains c.name allowed ≡ true) calls
  pub distinct : IsDistinct (map call_id calls)

-- The second log goes on from the first, with no tool call.
record IsQuiet (before after : Log) : Type 0 where
  events : Log
  splits : after ≡ before ++ events
  silent : (calls : List ToolCall) → calls_onto calls events ≡ calls

IsQuiet-refl : (log : Log) → IsQuiet log log
IsQuiet-refl log = record { events = []; splits = sym (append-nil log); silent = λ calls. refl }

IsQuiet-trans : {a b c : Log} → IsQuiet a b → IsQuiet b c → IsQuiet a c
IsQuiet-trans {a} p q = record {
  events = p.events ++ q.events;
  splits = q.splits ∙ ap (λ l. l ++ q.events) p.splits ∙ append_assoc a p.events q.events;
  silent = λ calls.
      calls_onto-append calls p.events q.events
      ∙ ap (λ cs. calls_onto cs q.events) (p.silent calls)
      ∙ q.silent calls;
}

module _ (env : Environment) where
  accept-IsQuiet : (event : Event) (st : PassState) → IsQuiet st.log (accept env event st).log
  unfolding accept
  accept-IsQuiet (Event.text_delta t) st = record {
    events = text_delta t ∷ [];
    splits = refl;
    silent = λ calls. refl;
  }
  accept-IsQuiet (Event.reasoning_delta t) st = record {
    events = reasoning_delta t ∷ [];
    splits = refl;
    silent = λ calls. refl;
  }
  accept-IsQuiet _ st = IsQuiet-refl st.log

  receive-IsQuiet : (event : Event) (st : PassState) → IsQuiet st.log (receive env event st).log
  unfolding receive
  receive-IsQuiet event st = elim (Option-cases st.callback_error) [
    | inr (e, q) ↦ rw (q, receive) (IsQuiet-refl st.log)
    | inl q ↦ elim (Result-cases (validate_event event)) [
      | inr (e, p) ↦ rw (q, receive) (rw p (IsQuiet-refl st.log))
      | inl (u, p) ↦ rw (q, receive) (rw p (accept-IsQuiet event st))
    ]
  ]

  receive_all-IsQuiet :
      (events : List Event) (st : PassState) → IsQuiet st.log (receive_all env events st).log
  unfolding receive_all
  receive_all-IsQuiet [] st = IsQuiet-refl st.log
  receive_all-IsQuiet (event ∷ events) st =
      IsQuiet-trans (receive-IsQuiet event st) (receive_all-IsQuiet events (receive env event st))

  pass-IsQuiet :
      (pass : ℕ) (request : Request) (log : Log)
      → IsQuiet log (run_provider_pass env pass request log).1
  unfolding run_provider_pass
  pass-IsQuiet pass request log = receive_all-IsQuiet (env.stream pass request).0 _

module _ {allowed : List Bytes} {base : Log} where
  IsLegal-quiet :
      {calls : List ToolCall} {log log' : Log}
      → IsQuiet log log'
      → IsLegal allowed base calls log
      → IsLegal allowed base calls log'
  IsLegal-quiet {calls} q l = record {
    events = l.events ++ q.events;
    splits = q.splits ∙ ap (λ e. e ++ q.events) l.splits ∙ append_assoc base l.events q.events;
    calls_are =
        calls_onto-append [] l.events q.events ∙ q.silent (calls_onto [] l.events) ∙ l.calls_are;
    offered = l.offered;
    distinct = l.distinct;
  }

  IsLegal-call :
      {calls : List ToolCall} {log : Log} (call : ToolCall)
      → contains call.name allowed ≡ true
      → contains call.id (map call_id calls) ≡ false
      → IsLegal allowed base calls log
      → IsLegal allowed base (call ∷ calls) (log ++ tool_call call ∷ [])
  IsLegal-call {calls} call offered due l = record {
    events = l.events ++ tool_call call ∷ [];
    splits =
        ap (λ e. e ++ tool_call call ∷ []) l.splits
        ∙ append_assoc base l.events (tool_call call ∷ []);
    calls_are =
        calls_onto-append [] l.events (tool_call call ∷ []) ∙ ap (λ cs. call ∷ cs) l.calls_are;
    offered = (offered, l.offered);
    distinct = (contains-IsFresh call.id (map call_id calls) due, l.distinct);
  }

-- After a computation: some legal calls, those of the state where it succeeds.
abbrev Some : List Bytes → Log → Log → Type 0
Some allowed base log = (calls : List ToolCall) × IsLegal allowed base calls log

abbrev After : List Bytes → Log → Result TurnState × Log → Type 0
After allowed base (ok st, log) =
    (calls : List ToolCall) × IsLegal allowed base calls log × (map call_id calls ≡ st.delivered)
After allowed base (err e, log) = Some allowed base log

module _ (env : Environment) (allowed : List Bytes) (base : Log) where
  run_call-After :
      (call : ToolCall) (st : TurnState) (log : Log)
      → After allowed base (ok st, log)
      → After allowed base (run_call env allowed call st log)
  run_call-After call st log (calls, legal, ids) = elim (run_call_cases env allowed call st log) [
    | refused e q ↦ rw q (calls, legal)
    | broken e due q ↦ rw q (call ∷ calls, IsLegal-call call due.0 (rw ids due.1) legal)
    | answered result due id q ↦
        rw q (call ∷ calls, IsLegal-call call due.0 (rw ids due.1) legal, ap (◌∷◌ call.id) ids)
  ]

  -- A computation after another, where each keeps the log legal.
  After-bind :
      (r : Result TurnState × Log) (f : TurnState → Emits TurnState)
      → After allowed base r
      → ((st : TurnState) (log : Log)
          → After allowed base (ok st, log)
          → After allowed base (f st log))
      → After allowed base (continue r.0 f r.1)
  After-bind (ok st, log) f h k = k st log h
  After-bind (err e, log) f h k = h

  run_calls-After :
      (calls : List ToolCall) (st : TurnState) (log : Log)
      → After allowed base (ok st, log)
      → After allowed base (run_calls env allowed calls st log)
  unfolding run_calls
  run_calls-After [] st log h = h
  run_calls-After (call ∷ calls) st log h =
      After-bind (run_call env allowed call st log) (λ s. run_calls env allowed calls s)
        (run_call-After call st log h) (λ s l k. run_calls-After calls s l k)

module _ (env : Environment) (r : Resolved) (base : Log) where
  -- What a continuation keeps legal.
  abbrev Keeps : Continuation → Type 0
  Keeps go =
      (st : TurnState) (total : TokenUsage) (log : Log)
      → After (allowed_names r) base (ok st, log)
      → Some (allowed_names r) base (go st total log).1

  Keeps-calls :
      (go : Continuation) (total : TokenUsage) (ran : Result TurnState × Log)
      → Keeps go
      → After (allowed_names r) base ran
      → Some (allowed_names r) base (continue ran.0 (λ s. go s total) ran.1).1
  Keeps-calls go total (ok st, log) keeps h = keeps st total log h
  Keeps-calls go total (err e, log) keeps h = h

  after_pass-Some :
      (st : TurnState) (total : TokenUsage) (go : Continuation) (calls : List ToolCall)
      (pass : PassResult) (log : Log)
      → Keeps go
      → After (allowed_names r) base (ok st, log)
      → Some (allowed_names r) base (after_pass env r st total go calls pass log).1
  unfolding after_pass
  after_pass-Some st total go [] pass log keeps h = elim (Bool-cases (is_empty pass.text)) [
    | inl e ↦ rw e (h.0, h.1)
    | inr n ↦ rw n (h.0, h.1)
  ]
  after_pass-Some st total go (c ∷ cs) pass log keeps h =
      Keeps-calls go (add_usage total pass.usage) _ keeps (
        run_calls-After env (allowed_names r) base pass.tool_calls
          (record st { turn_messages = st.turn_messages ++ assistant_message pass ∷ [] }) log h)

  Keeps-pass :
      (go : Continuation) (st : TurnState) (total : TokenUsage) (log : Log)
      (ran : Result PassResult × Log)
      → Keeps go
      → IsQuiet log ran.1
      → After (allowed_names r) base (ok st, log)
      → Some
          (allowed_names r)
          base
          (continue ran.0 (λ pass. after_pass env r st total go pass.tool_calls pass) ran.1).1
  Keeps-pass go st total log (err e, log') keeps quiet h = (h.0, IsLegal-quiet quiet h.1)
  Keeps-pass go st total log (ok pass, log') keeps quiet h =
      after_pass-Some st total go pass.tool_calls pass log' keeps
        (h.0, IsLegal-quiet quiet h.1, h.2)

  run_passes-Some : (rounds : ℕ) → Keeps (run_passes env r rounds)
  unfolding run_passes
  run_passes-Some zero st total log h = (h.0, h.1)
  run_passes-Some (suc rounds) st total log h =
      elim (Result-cases
        (map_err (wrap "execute agent turn") (validate_request (pass_request r st)))) [
          | inr (e, q) ↦ rw q (h.0, h.1)
          | inl (u, q) ↦ rw q (
              Keeps-pass (run_passes env r rounds) st total log
                (run_provider_pass env (16 - suc rounds) (pass_request r st) log)
                (run_passes-Some rounds)
                (pass-IsQuiet env (16 - suc rounds) (pass_request r st) log) h)
        ]

resolve_log :
    (env : Environment) (static : List Tool) (run : RunRequest) (base : List Message) (log : Log)
    → (resolve env static run base log).1 ≡ log
unfolding resolve
resolve_log env static run base log = refl

-- The tools that a run may call: the names of the runner's tools merged with those of the run.
abbrev pub offered_names : List Tool → RunRequest → List Bytes
offered_names static run = elim (merge_run_tools static run.mcp_tools) [
  | ok tools ↦ map (λ (t : Tool). t.name) tools
  | err e ↦ []
]

resolve-offered :
    (env : Environment) (static : List Tool) (run : RunRequest) (base : List Message) (log : Log)
    {r : Resolved} {log' : Log}
    → resolve env static run base log ≡ (ok r, log')
    → (offered_names static run ≡ allowed_names r) × (log' ≡ log)
unfolding resolve
resolve-offered env static run base log e =
    elim (Result-cases (merge_run_tools static run.mcp_tools)) [
      | inl (tools, q) ↦ (ground (arith, q, e), ground (arith, q, e))
      | inr (x, q) ↦ (ground (arith, q, e), ground (arith, q, e))
    ]

run_turn-Some :
    (env : Environment) (static : List Tool) (run : RunRequest) (base : List Message) (log : Log)
    → Some (offered_names static run) log (run_turn env static run base log).1
unfolding run_turn resolve
run_turn-Some env static run base log = go (resolve env static run base log) refl
  where
    nothing : (allowed : List Bytes) → IsLegal allowed log [] log
    nothing allowed = record {
      events = [];
      splits = sym (append-nil log);
      calls_are = refl;
      offered = tt;
      distinct = tt;
    }

    go :
        (resolved : Result Resolved × Log)
        → resolve env static run base log ≡ resolved
        → Some
            (offered_names static run)
            log
            (continue resolved.0
              (λ r.
                run_passes env r 16
                  (record { turn_messages = user_message run ∷ []; delivered = [] })
                  no_usage)
              resolved.1).1
    go (err e, log') q =
        let same_log : log' ≡ log = sym (ap (λ (p : Result Resolved × Log). p.1) q) in
        rw same_log ([], nothing (offered_names static run))
    go (ok r, log') q =
        let (offers, same_log) = resolve-offered env static run base log q in
        rw same_log (
          rw offers (
            run_passes-Some env r log 16
              (record { turn_messages = user_message run ∷ []; delivered = [] }) no_usage log
              ([], nothing (allowed_names r), refl)))

-- Whatever the provider streams, and whether the turn succeeds or not: the events of a turn are
-- put behind the log, every tool call among them names a tool that was offered to this run, and no
-- two of them have one ID.
pub run_turn-IsLegal :
    (env : Environment) (static : List Tool) (run : RunRequest) (base : List Message) (log : Log)
    → (events : Log) × ((run_turn env static run base log).1 ≡ log ++ events)
      × All (λ c. contains c.name (offered_names static run) ≡ true) (calls_onto [] events)
      × IsDistinct (map call_id (calls_onto [] events))
run_turn-IsLegal env static run base log =
    let (calls, legal) = run_turn-Some env static run base log in
    (
      legal.events,
      legal.splits,
      rw legal.calls_are legal.offered,
      rw legal.calls_are legal.distinct,
    )
