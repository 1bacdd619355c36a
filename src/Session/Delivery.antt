-- ===== src/Session/Delivery.antt =====
-- What a stream has written of the events of its session.
use cursor_cli_byok.Base.{
  ℕ, zero, suc, ◌+◌, ◌≡◌, refl, sym, ap, ◌∙◌, subst, ◌⊎◌, inl, inr, true, false, List, [], ◌∷◌,
  ◌++◌, append-nil, append_assoc, Bytes, on_both, map, drop, take, length, drop-append_length,
  length-append,
}
use cursor_cli_byok.Session.{Session, snapshot_events}
use cursor_cli_byok.Session.Stream.{
  Frame, event, heartbeat, ending, Phase, top, waiting, complete, broken, Viewer, new_viewer,
  write_round, cut_round, View, Step, changes, rounds, cuts, wakes, times_out, beats, leaves, Reach,
  here, next,
}
use cursor_cli_byok.Session.Changed.{Extends, grows, stays, finish-Extends, Changes-Extends}

-- The events among the frames.
abbrev pub events_of : List Frame → List Bytes
events_of [] = []
events_of (event e ∷ frames) = e ∷ events_of frames
events_of (heartbeat ∷ frames) = events_of frames
events_of (ending _ _ ∷ frames) = events_of frames

events_of-append : (a b : List Frame) → events_of (a ++ b) ≡ events_of a ++ events_of b
events_of-append [] b = refl
events_of-append (event e ∷ a) b = ap (◌∷◌ e) (events_of-append a b)
events_of-append (heartbeat ∷ a) b = events_of-append a b
events_of-append (ending _ _ ∷ a) b = events_of-append a b

events_of-map : (events : List Bytes) → events_of (map event events) ≡ events
events_of-map [] = refl
events_of-map (e ∷ events) = ap (◌∷◌ e) (events_of-map events)

-- What holds in each phase: the events that were written are as many as the cursor says; a stream
-- that waits has a signal waiting for it, or nothing left to write and a session that goes on; and
-- a stream that came to its regular end has written every event and then the end of the session.
abbrev pub Promise : Phase → Session → Viewer → Type 0
Promise top s v = v.cursor ≡ length (events_of v.written)
Promise waiting s v =
    (v.cursor ≡ length (events_of v.written))
    × ((s.notified ≡ true) ⊎ ((s.done ≡ false) × (events_of v.written ≡ s.events)))
Promise complete s v =
    (s.done ≡ true)
    × (events_of v.written ≡ s.events)
    × (before : List Frame) × (v.written ≡ before ++ ending s.error_code s.error_message ∷ [])
Promise broken s v = Unit

record IsSent (s : Session) (v : Viewer) : Type 0 where
  rest : List Bytes
  splits : s.events ≡ events_of v.written ++ rest
  promise : Promise v.phase s v

-- The promise of the phase, where the session extends.
Promise-Extends :
    {s t : Session} (v : Viewer) (phase : Phase)
    → Extends s t
    → Promise phase s v
    → Promise phase t v
Promise-Extends v top x p = p
Promise-Extends v waiting (grows new d q n) p = (p.0, inl n)
Promise-Extends v waiting (stays q d c m (inl n)) p = (p.0, inl n)
Promise-Extends v waiting (stays q d c m (inr n)) (p, inl y) = (p, inl (n ∙ y))
Promise-Extends v waiting (stays q d c m (inr n)) (p, inr (going, all)) =
    (p, inr (d ∙ going, all ∙ sym q))
Promise-Extends v complete (grows new d q n) p = absurd (cc (d, p.0))
Promise-Extends v complete (stays q d c m n) (over, all, before, w) =
    (d ∙ over, all ∙ sym q, before, rw c (rw m w))
Promise-Extends v broken x p = tt

IsSent-Extends : {s t : Session} {v : Viewer} → Extends s t → IsSent s v → IsSent t v
IsSent-Extends {v = v} (grows new d q n) h = record {
  rest = h.rest ++ new;
  splits = q ∙ ap (λ e. e ++ new) h.splits ∙ append_assoc (events_of v.written) h.rest new;
  promise = Promise-Extends v v.phase (grows new d q n) h.promise;
}
IsSent-Extends {v = v} (stays q d c m n) h = record {
  rest = h.rest;
  splits = q ∙ h.splits;
  promise = Promise-Extends v v.phase (stays q d c m n) h.promise;
}

-- The events behind the cursor are those that are left.
snapshot_events_lem :
    (s : Session) (v : Viewer) {rest : List Bytes}
    → s.events ≡ events_of v.written ++ rest
    → v.cursor ≡ length (events_of v.written)
    → snapshot_events v.cursor s ≡ rest
unfolding snapshot_events
snapshot_events_lem s v {rest} q c =
    ap (λ n. drop n s.events) c
    ∙ ap (drop (length (events_of v.written))) q
    ∙ drop-append_length (events_of v.written) rest

-- What is written once a list of events is.
events_of-sent :
    (written : List Frame) (events : List Bytes)
    → events_of (written ++ map event events) ≡ events_of written ++ events
events_of-sent written events =
    events_of-append written (map event events)
    ∙ ap (λ e. events_of written ++ e) (events_of-map events)

events_of-ended :
    (written : List Frame) (events : List Bytes) (code message : Bytes)
    → events_of ((written ++ map event events) ++ ending code message ∷ [])
      ≡ events_of written ++ events
events_of-ended written events code message =
    events_of-append (written ++ map event events) (ending code message ∷ [])
    ∙ append-nil (events_of (written ++ map event events))
    ∙ events_of-sent written events

take-drop : (n : ℕ) (events : List Bytes) → events ≡ take n events ++ drop n events
take-drop zero events = refl
take-drop (suc n) [] = refl
take-drop (suc n) (e ∷ events) = ap (◌∷◌ e) (take-drop n events)

write_round-IsSent :
    (s : Session) (v : Viewer) → v.phase ≡ top → IsSent s v → IsSent s (write_round s v)
unfolding write_round
write_round-IsSent s v at_top h =
    let count : v.cursor ≡ length (events_of v.written) =
      subst (λ p. Promise p s v) at_top h.promise in
    let news : snapshot_events v.cursor s ≡ h.rest = snapshot_events_lem s v h.splits count in
    let sent : events_of (v.written ++ map event (snapshot_events v.cursor s)) ≡ s.events =
      events_of-sent v.written (snapshot_events v.cursor s)
      ∙ ap (λ e. events_of v.written ++ e) news
      ∙ sym h.splits in
    on_both (IsSent s) s.done
      (λ over.
        let all =
          events_of-ended v.written (snapshot_events v.cursor s) s.error_code s.error_message
          ∙ ap (λ e. events_of v.written ++ e) news
          ∙ sym h.splits in
        record { rest = []; splits = sym all ∙ sym (append-nil _); promise = (over, all, _, refl) })
      (λ going. record {
        rest = [];
        splits = sym sent ∙ sym (append-nil _);
        promise = (
          ap (λ n. n + length (snapshot_events v.cursor s)) count
              ∙ sym (length-append (events_of v.written) (snapshot_events v.cursor s))
              ∙ ap length (sym (events_of-sent v.written (snapshot_events v.cursor s))),
          inr (going, sent),
        );
      })

cut_round-IsSent :
    (writes : ℕ) (s : Session) (v : Viewer)
    → v.phase ≡ top
    → IsSent s v
    → IsSent s (cut_round writes s v)
unfolding cut_round
cut_round-IsSent writes s v at_top h =
    let count : v.cursor ≡ length (events_of v.written) =
      subst (λ p. Promise p s v) at_top h.promise in
    let news = snapshot_events v.cursor s in
    record {
      rest = drop writes news;
      splits =
          h.splits
          ∙ ap (λ e. events_of v.written ++ e)
              (sym (snapshot_events_lem s v h.splits count) ∙ take-drop writes news)
          ∙ sym (append_assoc (events_of v.written) (take writes news) (drop writes news))
          ∙ ap (λ e. e ++ drop writes news) (sym (events_of-sent v.written (take writes news)));
      promise = tt;
    }

abbrev IsView : View → Type 0
IsView w = IsSent w.session w.viewer

-- The count of a stream that waits.
waiting_count :
    {s : Session} {v : Viewer}
    → v.phase ≡ waiting
    → IsSent s v
    → v.cursor ≡ length (events_of v.written)
waiting_count {s} {v} at h = (subst (λ p. Promise p s v) at h.promise).0

events_of-beat : (written : List Frame) → events_of (written ++ heartbeat ∷ []) ≡ events_of written
events_of-beat written = events_of-append written (heartbeat ∷ []) ∙ append-nil _

Step-IsSent : {w x : View} → Step w x → IsView w → IsView x
Step-IsSent (changes c) h = IsSent-Extends (Changes-Extends c) h
Step-IsSent (rounds {s} {v} at) h = write_round-IsSent s v at h
Step-IsSent (cuts {s} {v} writes at) h = cut_round-IsSent writes s v at h
Step-IsSent (wakes {s} {v} at n) h = record {
  rest = h.rest;
  splits = h.splits;
  promise = waiting_count at h;
}
Step-IsSent (times_out {s} {v} now at t) h =
    let h' = IsSent-Extends (finish-Extends now [] _ _ s) h in
    record { rest = h'.rest; splits = h'.splits; promise = waiting_count at h }
Step-IsSent (beats {s} {v} at) h = record {
  rest = h.rest;
  splits = h.splits ∙ ap (λ e. e ++ h.rest) (sym (events_of-beat v.written));
  promise = waiting_count at h ∙ ap length (sym (events_of-beat v.written));
}
Step-IsSent (leaves at) h = record { rest = h.rest; splits = h.splits; promise = tt }

Reach-IsSent : {w x : View} → Reach w x → IsView w → IsView x
Reach-IsSent here h = h
Reach-IsSent (next r step) h = Step-IsSent step (Reach-IsSent r h)

abbrev pub first_view : Session → View
first_view s = record { session = s; viewer = new_viewer }

-- The only stream of a session, beside any steps of others: the events that it has written are the
-- first of the session, in order and each once. While it waits, a signal waits for it or it has written
-- every event of a session that goes on; and at its regular end the session is over, it has
-- written every event, and its last frame is the session's end.
pub stream_delivers :
    (s : Session) {w : View}
    → Reach (first_view s) w
    → (rest : List Bytes) × (w.session.events ≡ events_of w.viewer.written ++ rest)
      × Promise w.viewer.phase w.session w.viewer
stream_delivers s reach =
    let h = Reach-IsSent reach (record { rest = s.events; splits = refl; promise = refl }) in
    (h.rest, h.splits, h.promise)
