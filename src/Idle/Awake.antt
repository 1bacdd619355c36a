-- ===== src/Idle/Awake.antt =====
-- When the `Wait` of internal/daemon/idle.go returns, and that it does not miss its time.
use cursor_cli_byok.Base.{
  ℕ, zero, suc, ◌+◌, ◌-◌, ◌≤◌, ◌≡◌, ◌⊎◌, inl, inr, refl, subst, Bool, true, false, ◌&&◌, List, [],
  ◌∷◌, ◌++◌, All, ok_eq, arith, on_both, ltb, leb, ◌==◌,
}
use cursor_cli_byok.Idle.{
  IdleMonitor, new_idle_monitor, signal, begin, end_activity, touch_monitor, Waiter, looking,
  asleep, timed, returned_nil, cancelled, look,
}
use cursor_cli_byok.Idle.Steps.{
  System, IsBlocked, by_activity, by_timer, Step, passes, begins, finishes, touches, signals, looks,
  wakes, fires, cancels, IsReachable, starts, goes_on,
}

-- The activities that have not come to their end.
unfoldable pub unfinished : List Bool → ℕ
unfinished [] = 0
unfinished (true ∷ activities) = unfinished activities
unfinished (false ∷ activities) = suc (unfinished activities)

unfinished-true :
    (before after : List Bool)
    → unfinished (before ++ false ∷ after) ≡ suc (unfinished (before ++ true ∷ after))
unfolding unfinished
unfinished-true [] after = refl
unfinished-true (true ∷ before) after = unfinished-true before after
unfinished-true (false ∷ before) after = omega (arith, unfinished-true before after)

-- What a `Wait` that is blocked relies on: without a timer, on an activity or on a signal that is
-- there or still to be sent; with one, on a deadline that is not too late.
abbrev Relies : Waiter → IdleMonitor → ℕ → Type 0
Relies asleep m unsent = (1 ≤ m.active) ⊎ ((m.wake ≡ true) ⊎ (1 ≤ unsent))
Relies (timed deadline) m unsent = deadline ≤ m.last_activity + m.timeout
Relies looking m unsent = Unit
Relies returned_nil m unsent = Unit
Relies cancelled m unsent = Unit

record IsSound (s : System) : Type 0 where
  counted : s.monitor.active ≡ unfinished s.activities
  in_time : s.monitor.last_activity ≤ s.now
  up_to_date : All (λ t. t ≤ s.monitor.last_activity) s.uses
  relies : Relies s.waiter s.monitor s.unsent

-- A use now is the last one.
uses-now :
    (now last : ℕ) (uses : List ℕ)
    → last ≤ now
    → All (λ t. t ≤ last) uses
    → All (λ t. t ≤ now) (now ∷ uses)
uses-now now last [] le h = (omega arith, tt)
uses-now now last (t ∷ uses) le h =
    let rest = uses-now now last uses le h.1 in (omega arith, (omega (arith, le, h.0), rest.1))

-- The monitor changes around a blocked `Wait`, which has a signal to come.
Relies-on_signal :
    (waiter : Waiter) (m m' : IdleMonitor) (unsent : ℕ)
    → m.last_activity ≤ m'.last_activity
    → m'.timeout ≡ m.timeout
    → Relies waiter m unsent
    → Relies waiter m' (unsent + 1)
Relies-on_signal asleep m m' unsent later same h = inr (inr (omega arith))
Relies-on_signal (timed deadline) m m' unsent later same h = omega arith
Relies-on_signal looking m m' unsent later same h = tt
Relies-on_signal returned_nil m m' unsent later same h = tt
Relies-on_signal cancelled m m' unsent later same h = tt

Relies-when_sent :
    (waiter : Waiter) (m : IdleMonitor) (unsent : ℕ)
    → Relies waiter m unsent
    → Relies waiter (signal m) (unsent - 1)
Relies-when_sent asleep m unsent h = inr (inl refl)
Relies-when_sent (timed deadline) m unsent h = h
Relies-when_sent looking m unsent h = tt
Relies-when_sent returned_nil m unsent h = tt
Relies-when_sent cancelled m unsent h = tt

look-Relies : (now : ℕ) (m : IdleMonitor) (unsent : ℕ) → Relies (look now m) m unsent
unfolding look
look-Relies now m unsent =
    let Fits = λ (waiter : Waiter). Relies waiter m unsent in
    on_both Fits ((m.active == 0) && leb (m.last_activity + m.timeout) now) {x = returned_nil}
      (λ y. tt)
      (λ x.
        on_both Fits (ltb 0 m.active) {x = asleep} {y = timed (m.last_activity + m.timeout)}
          (λ y. inl (ground arith)) (λ x'. omega arith))

step-IsSound : (s s' : System) → IsSound s → Step s s' → IsSound s'
unfolding begin end_activity touch_monitor unfinished
step-IsSound _ _ h (passes s d) = record {
  counted = h.counted;
  in_time = omega (arith, h.in_time);
  up_to_date = h.up_to_date;
  relies = h.relies;
}
step-IsSound _ _ h (begins s) = record {
  counted = omega (arith, h.counted);
  in_time = omega arith;
  up_to_date = uses-now s.now s.monitor.last_activity s.uses h.in_time h.up_to_date;
  relies =
      Relies-on_signal s.waiter s.monitor (begin s.now s.monitor) s.unsent h.in_time refl h.relies;
}
step-IsSound _ _ h (finishes s before after e) = record {
  counted =
      let all : s.monitor.active ≡ unfinished (before ++ false ∷ after) =
        subst (λ (a : List Bool). s.monitor.active ≡ unfinished a) e h.counted in
      ground (arith, all, unfinished-true before after);
  in_time = omega arith;
  up_to_date = uses-now s.now s.monitor.last_activity s.uses h.in_time h.up_to_date;
  relies =
      Relies-on_signal s.waiter s.monitor (end_activity s.now s.monitor) s.unsent h.in_time refl
        h.relies;
}
step-IsSound _ _ h (touches s) = record {
  counted = h.counted;
  in_time = omega arith;
  up_to_date = uses-now s.now s.monitor.last_activity s.uses h.in_time h.up_to_date;
  relies =
      Relies-on_signal s.waiter s.monitor (touch_monitor s.now s.monitor) s.unsent h.in_time refl
        h.relies;
}
step-IsSound _ _ h (signals s some_unsent) = record {
  counted = h.counted;
  in_time = h.in_time;
  up_to_date = h.up_to_date;
  relies = Relies-when_sent s.waiter s.monitor s.unsent h.relies;
}
step-IsSound _ _ h (looks s e) = record {
  counted = h.counted;
  in_time = h.in_time;
  up_to_date = h.up_to_date;
  relies = look-Relies s.now s.monitor s.unsent;
}
step-IsSound _ _ h (wakes s blocked e) = record {
  counted = h.counted;
  in_time = h.in_time;
  up_to_date = h.up_to_date;
  relies = tt;
}
step-IsSound _ _ h (fires s deadline e late) = record {
  counted = h.counted;
  in_time = h.in_time;
  up_to_date = h.up_to_date;
  relies = tt;
}
step-IsSound _ _ h (cancels s blocked) = record {
  counted = h.counted;
  in_time = h.in_time;
  up_to_date = h.up_to_date;
  relies = tt;
}

reachable-IsSound : (s : System) → IsReachable s → IsSound s
unfolding new_idle_monitor unfinished
reachable-IsSound _ (starts start zero m e) = absurd (cc e)
reachable-IsSound _ (starts start (suc timeout) m e) =
    subst
      (λ (m' : IdleMonitor). IsSound (record {
        monitor = m';
        now = start;
        waiter = looking;
        activities = [];
        unsent = 0;
        uses = start ∷ [];
      }))
      (ok_eq e)
      (record {
        counted = refl;
        in_time = omega arith;
        up_to_date = (omega arith, tt);
        relies = tt;
      })
reachable-IsSound _ (goes_on s s' r step) = step-IsSound s s' (reachable-IsSound s r) step

look-nil :
    (now : ℕ) (m : IdleMonitor)
    → look now m ≡ returned_nil
    → (m.active ≡ 0) × (m.last_activity + m.timeout ≤ now)
unfolding look
look-nil now m e = ground (arith, e)

long_ago :
    (last timeout now : ℕ) (uses : List ℕ)
    → last + timeout ≤ now
    → All (λ t. t ≤ last) uses
    → All (λ t. t + timeout ≤ now) uses
long_ago last timeout now [] late h = tt
long_ago last timeout now (t ∷ uses) late h =
    (omega (arith, h.0), long_ago last timeout now uses late h.1)

-- Whatever calls, signals, timers and wake-ups come before, in any interleaving: where `Wait` looks
-- and returns nil, no activity is unfinished, and the timeout has passed since the monitor was made
-- and since every time that an activity began, ended or was touched.
pub wait_returns_idle :
    (s : System)
    → IsReachable s
    → look s.now s.monitor ≡ returned_nil
    → (unfinished s.activities ≡ 0) × All (λ t. t + s.monitor.timeout ≤ s.now) s.uses
wait_returns_idle s r e =
    let (none_active, passed) = look-nil s.now s.monitor e in
    let sound = reachable-IsSound s r in
    (
      omega (arith, sound.counted, none_active),
      long_ago s.monitor.last_activity s.monitor.timeout s.now s.uses passed sound.up_to_date,
    )

-- What can end the sleep of a `Wait`.
pub data CanWake (s : System) : Type 0 where
  by_signal : s.monitor.wake ≡ true → CanWake s
  by_pending_signal : 1 ≤ s.unsent → CanWake s
  by_deadline : (deadline : ℕ) → s.waiter ≡ timed deadline → deadline ≤ s.now → CanWake s

can_wake :
    (waiter : Waiter) (s : System)
    → s.waiter ≡ waiter
    → IsBlocked waiter
    → Relies waiter s.monitor s.unsent
    → s.monitor.active ≡ 0
    → s.monitor.last_activity + s.monitor.timeout ≤ s.now
    → CanWake s
can_wake _ s e by_activity (inl busy) idle late = absurd (omega arith)
can_wake _ s e by_activity (inr (inl full)) idle late = by_signal full
can_wake _ s e by_activity (inr (inr some_unsent)) idle late = by_pending_signal some_unsent
can_wake _ s e (by_timer deadline) h idle late = by_deadline deadline e (omega arith)

-- Whatever calls, signals, timers and wake-ups come before, in any interleaving: a `Wait` that is
-- blocked while no activity is unfinished and the timeout has passed does not sleep on. The channel
-- holds a signal, or a signal is still to be sent, or its timer is due.
pub wait_wakes_up :
    (s : System)
    → IsReachable s
    → IsBlocked s.waiter
    → unfinished s.activities ≡ 0
    → s.monitor.last_activity + s.monitor.timeout ≤ s.now
    → CanWake s
wait_wakes_up s r blocked idle late =
    let sound = reachable-IsSound s r in
    can_wake s.waiter s refl blocked sound.relies (omega (arith, sound.counted, idle)) late
