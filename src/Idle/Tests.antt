-- ===== src/Idle/Tests.antt =====
-- A `Wait` that sleeps on an activity, which comes to its end.
use cursor_cli_byok.Base.{◌+◌, ◌≤◌, ◌≡◌, refl, true, false, All, [], ◌∷◌, arith}
use cursor_cli_byok.Idle.{new_idle_monitor, begin, end_activity, looking, asleep, look}
use cursor_cli_byok.Idle.Steps.{
  System, by_activity, begins, finishes, looks, passes, signals, wakes, IsReachable, starts,
  goes_on,
}
use cursor_cli_byok.Idle.Awake.{unfinished, wait_returns_idle, CanWake, wait_wakes_up}

-- A timeout of 5, from the time 3.
abbrev first_state : System
first_state = record {
  monitor = record { timeout = 5; active = 0; last_activity = 3; wake = false };
  now = 3;
  waiter = looking;
  activities = [];
  unsent = 0;
  uses = 3 ∷ [];
}

starts_here : IsReachable first_state
unfolding new_idle_monitor
starts_here = starts 3 5 first_state.monitor refl

abbrev begun_state : System
begun_state = record first_state {
  monitor = record first_state.monitor { active = 1 };
  activities = false ∷ [];
  unsent = 1;
  uses = 3 ∷ 3 ∷ [];
}

abbrev sleeping_state : System
sleeping_state = record begun_state { waiter = asleep }

abbrev waited_state : System
waited_state = record sleeping_state { now = 5 }

abbrev finished_state : System
finished_state = record waited_state {
  monitor = record first_state.monitor { last_activity = 5 };
  activities = true ∷ [];
  unsent = 2;
  uses = 5 ∷ 3 ∷ 3 ∷ [];
}

abbrev idle_state : System
idle_state = record finished_state { now = 10 }

reaches_idle : IsReachable idle_state
unfolding begin end_activity look
reaches_idle =
    goes_on finished_state idle_state
      (goes_on waited_state finished_state
        (goes_on sleeping_state waited_state
          (goes_on begun_state sleeping_state
            (goes_on first_state begun_state starts_here (begins first_state))
            (looks begun_state refl))
          (passes sleeping_state 2))
        (finishes waited_state [] [] refl))
      (passes finished_state 5)

wait_wakes_up_example : CanWake idle_state
wait_wakes_up_example =
    wait_wakes_up idle_state reaches_idle by_activity (unfold unfinished in refl) (omega arith)

-- The end of the activity is signalled, which wakes `Wait`: it looks and returns.
abbrev signalled_state : System
signalled_state = record idle_state {
  monitor = record idle_state.monitor { wake = true };
  unsent = 1;
}

abbrev woken_state : System
woken_state = record signalled_state {
  waiter = looking;
  monitor = record idle_state.monitor { wake = false };
}

reaches_woken : IsReachable woken_state
reaches_woken =
    goes_on signalled_state woken_state
      (goes_on idle_state signalled_state reaches_idle (signals idle_state (omega arith)))
      (wakes signalled_state by_activity refl)

wait_returns_idle_example : (unfinished (true ∷ []) ≡ 0) × All (λ t. t + 5 ≤ 10) (5 ∷ 3 ∷ 3 ∷ [])
wait_returns_idle_example = wait_returns_idle woken_state reaches_woken (unfold look in refl)
