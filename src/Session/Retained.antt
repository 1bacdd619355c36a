-- ===== src/Session/Retained.antt =====
-- The sessions that `agentHandler` of internal/server/agent.go keeps: `session`,
-- `pruneExpiredSessionsLocked` and `makeRoomForSessionLocked`. The map is an association list, walked
-- in its order where Go's `range` takes any; the handler's lock is held throughout.
use cursor_cli_byok.Base.{
  ℕ, zero, suc, ◌+◌, Bool, false, ◌||◌, Option, none, some, [], ◌∷◌, Bytes, if◌then◌else◌, ltb, leb,
  length,
}
use cursor_cli_byok.Go.Strings.{is_empty}
use cursor_cli_byok.Go.Table.{Table, lookup, put, remove}
use cursor_cli_byok.Session.{Session, new_session}

-- `terminalState` with the tests on the time.
unfoldable pub terminal_time : Session → Option ℕ
terminal_time session = if session.done then session.terminal_at else none

abbrev pub is_past : ℕ → ℕ → Option ℕ → Bool
is_past retention now none = false
is_past retention now (some at) = leb (at + retention) now

-- `pruneExpiredSessionsLocked`
unfoldable pub prune_expired_sessions : ℕ → ℕ → Table Session → Table Session
prune_expired_sessions retention now [] = []
prune_expired_sessions retention now ((id, session) ∷ sessions) =
    let rest = prune_expired_sessions retention now sessions in
    if is_past retention now (terminal_time session) then rest else (id, session) ∷ rest

abbrev pub earlier : Bytes × ℕ → Bytes → Option ℕ → Bytes × ℕ
earlier found id none = found
earlier (oldest, at) id (some t) = if is_empty oldest || ltb t at then (id, t) else (oldest, at)

-- The inner loop of `makeRoomForSessionLocked`: the ID and the time found so far.
unfoldable pub oldest_terminal : Bytes × ℕ → Table Session → Bytes × ℕ
oldest_terminal found [] = found
oldest_terminal found ((id, session) ∷ sessions) =
    oldest_terminal (earlier found id (terminal_time session)) sessions

-- The loop of `makeRoomForSessionLocked`, with fuel for its rounds.
unfoldable pub make_room_loop : ℕ → ℕ → Table Session → Table Session
make_room_loop zero maximum sessions = sessions
make_room_loop (suc fuel) maximum sessions =
    let id = (oldest_terminal ([], 0) sessions).0 in
    let rest = make_room_loop fuel maximum (remove id sessions) in
    if ltb (length sessions) maximum then sessions else (if is_empty id then sessions else rest)

-- The fuel is the number of the sessions: each round deletes one.
unfoldable pub make_room_for_session : ℕ → Table Session → Table Session
make_room_for_session maximum sessions = make_room_loop (length sessions) maximum sessions

-- `agentHandler.session`: the sessions after it; the result is the one under the ID.
unfoldable pub open_session : ℕ → ℕ → ℕ → Bytes → Table Session → Table Session
open_session retention maximum now id sessions =
    let pruned = prune_expired_sessions retention now sessions in
    elim (lookup id pruned) [
      | some _ ↦ pruned
      | none ↦ put id new_session (make_room_for_session maximum pruned)
    ]
