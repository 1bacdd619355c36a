-- ===== src/Session/Tests.antt =====
-- A session with its stream, and a handler's sessions.
use cursor_cli_byok.Base.{
  ℕ, ◌≤◌, ◌≡◌, ◌⊎◌, refl, true, false, none, some, List, [], ◌∷◌, ◌++◌, Bytes, ok, length,
}
use cursor_cli_byok.Go.Strings.{same}
use cursor_cli_byok.Go.Table.{Table, lookup, put, remove, IsTable}
use cursor_cli_byok.Session.{
  Session, new_session, no_run, start, publish, finish, snapshot_events, same_run, same_tools,
  allocate_message_id,
}
use cursor_cli_byok.Session.Stream.{
  event, ending, Phase, Viewer, new_viewer, write_round, View, Reach, here, next, changes, rounds,
  wakes, starts, publishes, finishes,
}
use cursor_cli_byok.Session.Delivery.{events_of, Promise, first_view, stream_delivers}
use cursor_cli_byok.Session.Retained.{
  terminal_time, prune_expired_sessions, oldest_terminal, make_room_loop, make_room_for_session,
  open_session,
}
use cursor_cli_byok.Session.Scan.{AllRunning}
use cursor_cli_byok.Session.Kept.{open_session-keeps_running, open_session_bounded}

-- A run is started, publishes one event, and ends; the stream looks twice.
abbrev started : Session
started = (start no_run new_session).1

abbrev published : Session
published = (publish none (7 ∷ []) started).1

abbrev seen_once : Viewer
seen_once = write_round published new_viewer

abbrev finished : Session
finished = finish 5 (8 ∷ []) [] [] published

abbrev woken : View
woken = record {
  session = record finished { notified = false };
  viewer = record seen_once { phase = Phase.top };
}

abbrev over : View
over = record { session = woken.session; viewer = write_round woken.session woken.viewer }

reaches_over : Reach (first_view new_session) over
unfolding start publish finish write_round snapshot_events
reaches_over =
    next
      (next
        (next
          (next (next (next here (changes (starts no_run))) (changes (publishes none (7 ∷ []))))
            (rounds refl))
          (changes (finishes 5 (8 ∷ []) [] [])))
        (wakes refl refl))
      (rounds refl)

stream_delivers_example :
    (rest : List Bytes) × (over.session.events ≡ events_of over.viewer.written ++ rest)
    × Promise over.viewer.phase over.session over.viewer
stream_delivers_example = stream_delivers new_session {w = over} reaches_over

over_written : over.viewer.written ≡ event (7 ∷ []) ∷ event (8 ∷ []) ∷ ending [] [] ∷ []
unfolding start publish finish write_round snapshot_events
over_written = refl

-- A second start with the same run does not run it again.
started_twice : start no_run started ≡ (ok false, started)
unfolding start same_run same_tools same
started_twice = refl

abbrev ended_at : ℕ → Session
ended_at at = record new_session { done = true; terminal_at = some at }

-- Two sessions are over and one goes on, where the bound is two.
abbrev three : Table Session
three = (97 ∷ [], ended_at 8) ∷ (98 ∷ [], new_session) ∷ (99 ∷ [], ended_at 9) ∷ []

three-IsTable : IsTable three
unfolding lookup same
three-IsTable = ((λ e. cc), refl, ((λ e. cc), refl, ((λ e. cc), refl, tt)))

finds_running : lookup (98 ∷ []) three ≡ some new_session
unfolding lookup same
finds_running = refl

is_new : lookup (100 ∷ []) three ≡ none
unfolding lookup same
is_new = refl

open_session-keeps_running_example :
    lookup (98 ∷ []) (open_session 100 2 10 (100 ∷ []) three) ≡ some new_session
open_session-keeps_running_example =
    open_session-keeps_running 100 2 10 (100 ∷ []) three (98 ∷ []) {s = new_session} three-IsTable
      refl finds_running

open_session_bounded_example :
    (length (open_session 100 2 10 (100 ∷ []) three) ≤ 2)
    ⊎ AllRunning (open_session 100 2 10 (100 ∷ []) three)
open_session_bounded_example = open_session_bounded 100 2 10 (100 ∷ []) three three-IsTable is_new

-- The sessions that are over make room.
three_left :
    open_session 100 2 10 (100 ∷ []) three ≡ (98 ∷ [], new_session) ∷ (100 ∷ [], new_session) ∷ []
unfolding open_session make_room_for_session make_room_loop oldest_terminal terminal_time
    prune_expired_sessions lookup put remove same
three_left = refl

-- The message ID zero is passed over where the counter wraps.
wraps_past_zero : allocate_message_id 4294967295 ≡ (1, 1)
unfolding allocate_message_id
wraps_past_zero = refl
