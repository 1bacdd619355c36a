-- ===== src/Idle.antt =====
-- The idle monitor of internal/daemon/idle.go. Times are counted from some start.
pub mod Steps
pub mod Awake
pub mod Tests
use cursor_cli_byok.Base.{
  ℕ, zero, suc, ◌+◌, ◌-◌, Bool, true, false, ◌&&◌, Result, ok, err, new, ltb, leb, ◌==◌,
  if◌then◌else◌,
}

-- `wake` says that the channel of one place is full.
pub record IdleMonitor : Type 0 where
  pub timeout : ℕ
  pub active : ℕ
  pub last_activity : ℕ
  pub wake : Bool

-- `NewIdleMonitor` at a time; a timeout that is not positive is zero here.
unfoldable pub new_idle_monitor : ℕ → ℕ → Result IdleMonitor
new_idle_monitor now zero = err (new "create idle monitor: positive timeout is required")
new_idle_monitor now (suc timeout) =
    ok (record { timeout = suc timeout; active = 0; last_activity = now; wake = false })

-- `signal`: the channel is full, or gets full.
abbrev pub signal : IdleMonitor → IdleMonitor
signal m = record m { wake = true }

-- `Begin`, up to its `signal`
unfoldable pub begin : ℕ → IdleMonitor → IdleMonitor
begin now m = record m { active = m.active + 1; last_activity = now }

-- What `Begin` returns, up to its `signal`.
unfoldable pub end_activity : ℕ → IdleMonitor → IdleMonitor
end_activity now m = record m {
  active = if ltb 0 m.active then m.active - 1 else m.active;
  last_activity = now;
}

-- `Touch`, up to its `signal`
unfoldable pub touch_monitor : ℕ → IdleMonitor → IdleMonitor
touch_monitor now m = record m { last_activity = now }

-- Where `Wait` is: in front of the lock, in the `select` without a timer, in the one with a timer
-- for a time, or returned, with nil or the context's error.
pub data Waiter : Type 0 where
  looking asleep : Waiter
  timed : ℕ → Waiter
  returned_nil cancelled : Waiter

-- The part of a round of `Wait` under the lock, and the choice behind it. The timer is taken to be
-- set at the time of the look: what passes between the lock and `time.NewTimer` is left out.
unfoldable pub look : ℕ → IdleMonitor → Waiter
look now m =
    if (m.active == 0) && leb (m.last_activity + m.timeout) now
    then returned_nil
    else if ltb 0 m.active
    then asleep
    else timed (m.last_activity + m.timeout)
