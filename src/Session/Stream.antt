-- ===== src/Session/Stream.antt =====
-- `streamSession` of internal/server/agent.go, beside whatever happens to its session. The session
-- has this one stream, so no other receiver takes the signal.
use cursor_cli_byok.Base.{
  ℕ, ◌+◌, ◌≡◌, Bool, true, false, Option, List, [], ◌∷◌, ◌++◌, Bytes, Error, map, take, length,
  if◌then◌else◌,
}
use cursor_cli_byok.Go.Strings.{text}
use cursor_cli_byok.Runner.Events.{RunRequest}
use cursor_cli_byok.Session.{
  Session, start, publish, finish, queue, snapshot_events, subscribe, unsubscribe,
}

-- What is written: an event or a heartbeat in its envelope, or the end.
pub data Frame : Type 0 where
  event : Bytes → Frame
  heartbeat : Frame
  ending : Bytes → Bytes → Frame

-- Where the loop is: before `snapshot`, in `select`, behind its regular end, or behind a write that
-- failed or a context that is done.
pub data Phase : Type 0 where
  top waiting complete broken : Phase

pub record Viewer : Type 0 where
  pub phase : Phase
  pub cursor : ℕ
  -- `startChannel` is not nil
  pub timed : Bool
  pub written : List Frame

abbrev pub new_viewer : Viewer
new_viewer = record { phase = top; cursor = 0; timed = true; written = [] }

abbrev pub timer_left : Bool → Bool → Bool
timer_left true _ = false
timer_left false timed = timed

-- One round of the loop up to `select`, where every write succeeds.
unfoldable pub write_round : Session → Viewer → Viewer
write_round session viewer =
    let events = snapshot_events viewer.cursor session in
    let sent = viewer.written ++ map event events in
    if session.done
    then record {
      phase = complete;
      cursor = viewer.cursor + length events;
      timed = timer_left session.started viewer.timed;
      written = sent ++ ending session.error_code session.error_message ∷ [];
    }
    else record {
      phase = waiting;
      cursor = viewer.cursor + length events;
      timed = timer_left session.started viewer.timed;
      written = sent;
    }

-- One round where the write behind that many events fails.
unfoldable pub cut_round : ℕ → Session → Viewer → Viewer
cut_round writes session viewer = record viewer {
  phase = broken;
  written = viewer.written ++ map event (take writes (snapshot_events viewer.cursor session));
}

-- The steps of a session that other goroutines take.
pub data Changes : Session → Session → Type 0 where
  starts : {s : Session} (request : RunRequest) → Changes s (start request s).1
  publishes :
      {s : Session} (parent : Option Error) (payload : Bytes)
      → Changes s (publish parent payload s).1
  finishes :
      {s : Session} (now : ℕ) (payload code message : Bytes)
      → Changes s (finish now payload code message s)
  -- the appends of `enrichRunWithMCP`, `openTool` and `applyToolResult`, behind their test of `done`
  queues : {s : Session} (payloads : List Bytes) → s.done ≡ false → Changes s (queue payloads s)
  subscribes : {s : Session} → Changes s (subscribe s)
  unsubscribes : {s : Session} → Changes s (unsubscribe s)

pub record View : Type 0 where
  pub session : Session
  pub viewer : Viewer

pub data Step : View → View → Type 0 where
  changes :
      {s t : Session} {v : Viewer}
      → Changes s t
      → Step (record { session = s; viewer = v }) (record { session = t; viewer = v })
  rounds :
      {s : Session} {v : Viewer}
      → v.phase ≡ top
      → Step (record { session = s; viewer = v }) (record { session = s; viewer = write_round s v })
  cuts :
      {s : Session} {v : Viewer} (writes : ℕ)
      → v.phase ≡ top
      → Step
          (record { session = s; viewer = v })
          (record { session = s; viewer = cut_round writes s v })
  -- `<-session.notification()`
  wakes :
      {s : Session} {v : Viewer}
      → v.phase ≡ waiting
      → s.notified ≡ true
      → Step
          (record { session = s; viewer = v })
          (record { session = record s { notified = false }; viewer = record v { phase = top } })
  -- `<-startChannel`
  times_out :
      {s : Session} {v : Viewer} (now : ℕ)
      → v.phase ≡ waiting
      → v.timed ≡ true
      → Step
          (record { session = s; viewer = v })
          (record {
            session =
                finish now [] (text "invalid_argument") (text "run request was not appended") s;
            viewer = record v { phase = top; timed = false };
          })
  -- `<-heartbeat.C`
  beats :
      {s : Session} {v : Viewer}
      → v.phase ≡ waiting
      → Step
          (record { session = s; viewer = v })
          (record {
            session = s;
            viewer = record v { phase = top; written = v.written ++ heartbeat ∷ [] };
          })
  -- a context is done, or the heartbeat is not written
  leaves :
      {s : Session} {v : Viewer}
      → v.phase ≡ waiting
      → Step
          (record { session = s; viewer = v })
          (record { session = s; viewer = record v { phase = broken } })

pub data Reach (first : View) : View → Type 0 where
  here : Reach first first
  next : {v w : View} → Reach first v → Step v w → Reach first w
