-- ===== src/Idle/Steps.antt =====
-- The idle monitor of internal/daemon/idle.go with its one `Wait` and everything around it, step by
-- step.
use cursor_cli_byok.Base.{ℕ, ◌+◌, ◌-◌, ◌≤◌, ◌≡◌, Bool, true, false, List, [], ◌∷◌, ◌++◌, ok}
use cursor_cli_byok.Idle.{
  IdleMonitor, new_idle_monitor, signal, begin, end_activity, touch_monitor, Waiter, looking,
  asleep, timed, cancelled, look,
}

-- The monitor, the time, where `Wait` is, the functions that `Begin` has returned, each with what
-- its `once` knows, how many calls have left the lock with their signal still to be sent, and, apart
-- from the program, the times at which the monitor was made and an activity began, ended or was
-- touched.
pub record System : Type 0 where
  pub monitor : IdleMonitor
  pub now : ℕ
  pub waiter : Waiter
  pub activities : List Bool
  pub unsent : ℕ
  pub uses : List ℕ

-- A `Wait` in one of its two `select` statements.
pub data IsBlocked : Waiter → Type 0 where
  by_activity : IsBlocked asleep
  by_timer : (deadline : ℕ) → IsBlocked (timed deadline)

abbrev pub woken_system : System → System
woken_system s = record s { waiter = looking; monitor = record s.monitor { wake = false } }

pub data Step : System → System → Type 0 where
  -- Time passes.
  passes : (s : System) (d : ℕ) → Step s (record s { now = s.now + d })
  -- A call of `Begin`, of a function that it returned, or of `Touch`, up to its signal.
  begins :
      (s : System)
      → Step s (record s {
        monitor = begin s.now s.monitor;
        activities = false ∷ s.activities;
        unsent = s.unsent + 1;
        uses = s.now ∷ s.uses;
      })
  finishes :
      (s : System) (before after : List Bool)
      → s.activities ≡ before ++ false ∷ after
      → Step s (record s {
        monitor = end_activity s.now s.monitor;
        activities = before ++ true ∷ after;
        unsent = s.unsent + 1;
        uses = s.now ∷ s.uses;
      })
  touches :
      (s : System)
      → Step s (record s {
        monitor = touch_monitor s.now s.monitor;
        unsent = s.unsent + 1;
        uses = s.now ∷ s.uses;
      })
  -- The signal of such a call.
  signals :
      (s : System)
      → 1 ≤ s.unsent
      → Step s (record s { monitor = signal s.monitor; unsent = s.unsent - 1 })
  -- A round of `Wait`, its signal, its timer, and the end of its context.
  looks : (s : System) → s.waiter ≡ looking → Step s (record s { waiter = look s.now s.monitor })
  wakes : (s : System) → IsBlocked s.waiter → s.monitor.wake ≡ true → Step s (woken_system s)
  fires :
      (s : System) (deadline : ℕ)
      → s.waiter ≡ timed deadline
      → deadline ≤ s.now
      → Step s (record s { waiter = looking })
  cancels : (s : System) → IsBlocked s.waiter → Step s (record s { waiter = cancelled })

-- What any steps lead to from a new monitor whose `Wait` is about to look.
pub data IsReachable : System → Type 0 where
  starts :
      (start timeout : ℕ) (m : IdleMonitor)
      → new_idle_monitor start timeout ≡ ok m
      → IsReachable (record {
        monitor = m;
        now = start;
        waiter = looking;
        activities = [];
        unsent = 0;
        uses = start ∷ [];
      })
  goes_on : (s s' : System) → IsReachable s → Step s s' → IsReachable s'
