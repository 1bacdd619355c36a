-- ===== src/Session/Kept.antt =====
-- Which sessions stay where one is opened.
use cursor_cli_byok.Base.{
  ℕ, zero, suc, ◌≤◌, ◌<◌, ◌≡◌, ◌⊎◌, inl, inr, refl, sym, subst, true, false, none, some, [], ◌∷◌,
  Bytes, if◌then◌else◌, ltb, length, arith, Bool-cases, Option-cases, on_both,
}
use cursor_cli_byok.Go.Strings.{is_empty, same, same_iff}
use cursor_cli_byok.Go.Table.{
  Table, lookup, put, remove, lookup-put, lookup-remove, length-remove, length-put_le, All-put,
  IsTable, IsTable-remove,
}
use cursor_cli_byok.Session.{Session, new_session}
use cursor_cli_byok.Session.Retained.{
  terminal_time, prune_expired_sessions, oldest_terminal, make_room_loop, make_room_for_session,
  open_session,
}
use cursor_cli_byok.Session.Scan.{
  old, over, AllRunning, terminal_time_running, lookup-prune_running, lookup-prune_none,
  prune-IsTable, oldest_terminal-Found, oldest_terminal-AllRunning,
}

module _ (maximum : ℕ) where
  loop_step :
      (fuel : ℕ) (m : Table Session)
      → make_room_loop (suc fuel) maximum m ≡ (
          if ltb (length m) maximum
          then m
          else (if is_empty (oldest_terminal ([], 0) m).0
              then m
              else make_room_loop fuel maximum (remove (oldest_terminal ([], 0) m).0 m)))
  unfolding make_room_loop
  loop_step fuel m = refl

  -- A round that deletes takes no session that goes on.
  lookup-remove_running :
      (m : Table Session) (j : Bytes) {s : Session}
      → IsTable m
      → is_empty (oldest_terminal ([], 0) m).0 ≡ false
      → s.done ≡ false
      → lookup j m ≡ some s
      → lookup j (remove (oldest_terminal ([], 0) m).0 m) ≡ some s
  lookup-remove_running m j {s} t named h q =
      let id = (oldest_terminal ([], 0) m).0 in
      elim (oldest_terminal-Found ([], 0) m t) [
        | old e ↦ absurd (ground (arith, e, named))
        | over s' q' d ↦ rw (lookup-remove id j m) (elim (Bool-cases (same id j)) [
          | inl y ↦ absurd (ground (arith, (same_iff id j).0 y, q, q', d, h))
          | inr n ↦ rw n q
        ])
      ]

  loop-keeps_running :
      (fuel : ℕ) (m : Table Session) (j : Bytes) {s : Session}
      → IsTable m
      → s.done ≡ false
      → lookup j m ≡ some s
      → lookup j (make_room_loop fuel maximum m) ≡ some s
  loop-keeps_running zero m j t h q = unfold make_room_loop in q
  loop-keeps_running (suc fuel) m j {s} t h q =
      let P : Table Session → Type 0 = λ r. lookup j r ≡ some s in
      subst P (sym (loop_step fuel m)) (
        on_both P (ltb (length m) maximum) (λ room. q)
          (λ full.
            on_both P (is_empty (oldest_terminal ([], 0) m).0) (λ stuck. q)
              (λ named.
                loop-keeps_running fuel (remove (oldest_terminal ([], 0) m).0 m) j
                  (IsTable-remove (oldest_terminal ([], 0) m).0 m t) h
                  (lookup-remove_running m j t named h q))))

  found_in :
      (m : Table Session)
      → IsTable m
      → is_empty (oldest_terminal ([], 0) m).0 ≡ false
      → (s : Session) × (lookup (oldest_terminal ([], 0) m).0 m ≡ some s)
  found_in m t named = elim (oldest_terminal-Found ([], 0) m t) [
    | old e ↦ absurd (ground (arith, e, named))
    | over s q d ↦ (s, q)
  ]

  empty_nil : (b : Bytes) → is_empty b ≡ true → b ≡ []
  empty_nil [] h = refl
  empty_nil (x ∷ b) h = absurd (cc h)

  abbrev HasRoom : Table Session → Type 0
  HasRoom r = (length r < maximum) ⊎ AllRunning r

  loop-HasRoom :
      (fuel : ℕ) (m : Table Session)
      → IsTable m
      → length m ≤ fuel
      → HasRoom (make_room_loop fuel maximum m)
  loop-HasRoom zero [] t enough = unfold make_room_loop in inr tt
  loop-HasRoom zero (e ∷ m) t enough = absurd (omega arith)
  loop-HasRoom (suc fuel) m t enough = subst HasRoom (sym (loop_step fuel m)) (
      on_both HasRoom (ltb (length m) maximum) (λ room. inl (ground arith))
        (λ full.
          on_both HasRoom (is_empty (oldest_terminal ([], 0) m).0)
            (λ stuck. inr (oldest_terminal-AllRunning m t (empty_nil _ stuck)))
            (λ named.
              loop-HasRoom fuel (remove (oldest_terminal ([], 0) m).0 m)
                (IsTable-remove (oldest_terminal ([], 0) m).0 m t)
                (omega
                  (arith, length-remove (oldest_terminal ([], 0) m).0 m (found_in m t named).1)))))

  make_room-HasRoom : (m : Table Session) → IsTable m → HasRoom (make_room_for_session maximum m)
  unfolding make_room_for_session
  make_room-HasRoom m t = loop-HasRoom (length m) m t (omega arith)

module _ (retention maximum now : ℕ) (id : Bytes) (sessions : Table Session) where
  opened_where_missing :
      lookup id (prune_expired_sessions retention now sessions) ≡ none
      → open_session retention maximum now id sessions
        ≡ put id new_session
            (make_room_for_session maximum (prune_expired_sessions retention now sessions))
  unfolding open_session
  opened_where_missing q = rw (q, open_session) refl

  opened_where_found :
      {s : Session}
      → lookup id (prune_expired_sessions retention now sessions) ≡ some s
      → open_session retention maximum now id sessions
        ≡ prune_expired_sessions retention now sessions
  unfolding open_session
  opened_where_found q = rw (q, open_session) refl

-- Whatever session is opened, with whatever retention, bound and time: a session that is not done
-- stays in the map as it is.
pub open_session-keeps_running :
    (retention maximum now : ℕ) (id : Bytes) (sessions : Table Session) (j : Bytes) {s : Session}
    → IsTable sessions
    → s.done ≡ false
    → lookup j sessions ≡ some s
    → lookup j (open_session retention maximum now id sessions) ≡ some s
open_session-keeps_running retention maximum now id sessions j {s} t h q =
    let pruned = prune_expired_sessions retention now sessions in
    let kept = lookup-prune_running retention now j sessions h q in
    elim (Option-cases (lookup id pruned)) [
      | inr (d, found) ↦ rw (opened_where_found retention maximum now id sessions found) kept
      | inl missing ↦ rw (opened_where_missing retention maximum now id sessions missing) (
          rw (lookup-put id j new_session (make_room_for_session maximum pruned))
            (elim (Bool-cases (same id j)) [
              | inl y ↦ absurd (ground (arith, (same_iff id j).0 y, missing, kept))
              | inr n ↦ rw n (
                  unfold make_room_for_session in
                  loop-keeps_running maximum (length pruned) pruned j
                    (prune-IsTable retention now sessions t) h kept)
            ]))
    ]

-- Where the session that is opened is new, the sessions are afterwards within the bound, or none of
-- them has come to its end.
pub open_session_bounded :
    (retention maximum now : ℕ) (id : Bytes) (sessions : Table Session)
    → IsTable sessions
    → lookup id sessions ≡ none
    → (length (open_session retention maximum now id sessions) ≤ maximum)
      ⊎ AllRunning (open_session retention maximum now id sessions)
open_session_bounded retention maximum now id sessions t fresh =
    let pruned = prune_expired_sessions retention now sessions in
    let room = make_room_for_session maximum pruned in
    rw
      (opened_where_missing retention maximum now id sessions
        (lookup-prune_none retention now id sessions fresh))
      (elim (make_room-HasRoom maximum pruned (prune-IsTable retention now sessions t)) [
        | inl le ↦ inl (omega (arith, le, length-put_le id new_session room))
        | inr all ↦ inr (
            All-put (λ e. terminal_time e.1 ≡ none) id new_session room
              (terminal_time_running new_session refl) all)
      ])
