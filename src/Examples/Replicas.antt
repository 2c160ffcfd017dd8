-- ===== src/Examples/Replicas.antt =====
-- A replica that crashes, comes back and crashes again.
use shipwick.Base.{ℕ, inr, refl, arith, true, false, none, some, List, [], ◌∷◌}
use shipwick.Supervisor.{
  Options, Spec, HealthCheck, ReplicaState, Exit, unhealthy, on_failure, never, blank, delay,
  seen_down, due,
}
use shipwick.Supervisor.Handlers.{Supervisor, state, supervise_running, supervise_down}
use shipwick.Supervisor.Pacing.{
  Happening, found_up, found_down, happens, ready_to_restart, IsPaced, IsSpaced, happens-IsPaced,
  restarts-IsSpaced,
}
use shipwick.Supervisor.Refinement.{Becomes, running-Becomes, down-Becomes}

abbrev options : Options
options = record {
  restart_delays = 0 ∷ 5 ∷ 15 ∷ [];
  crash_loop_delay = 60;
  stable_after = 600;
  startup_poll_interval = 2;
}

abbrev check : HealthCheck
check = record { interval = 10; retries = 3; start_period = 20 }

abbrev web : Spec
web = record { health = some check; policy = on_failure }

abbrev job : Spec
job = record { health = none; policy = never }

abbrev crashed : Exit
crashed = record { exit_code = 1; oom_killed = false }

-- It was restarted once, at 100, and was found down again.
abbrev down : ReplicaState
down = record (blank unhealthy) {
  restarts = 1;
  last_restart = 100;
  next_restart = 107;
  exit_seen = true;
}

down-IsPaced : IsPaced options 104 down
unfolding delay
down-IsPaced = record { past = omega arith; spaced = inr (omega arith) }

happens-IsPaced_example : IsPaced options 110 (happens options web 110 (found_down none) down)
happens-IsPaced_example =
    happens-IsPaced options web 104 110 (found_down none) down (omega arith) down-IsPaced

restarts-IsSpaced_example : IsSpaced options 110 down
unfolding ready_to_restart due seen_down
restarts-IsSpaced_example =
    restarts-IsSpaced options web 104 110 (found_down none) down (seen_down web down) (omega arith)
      down-IsPaced refl

abbrev memory : Supervisor
memory = record { states = (4, down) ∷ []; recreate = [] }

running-Becomes_example :
    Becomes 4
      (happens options web 110 (found_up true) (state web 4 memory))
      memory
      (supervise_running options web 110 4 true true memory).0
running-Becomes_example = running-Becomes options web 110 4 true true memory

down-Becomes_example :
    Becomes 4
      (happens options web 110 (found_down (some crashed)) (state web 4 memory))
      memory
      (supervise_down options web 110 4 (some crashed) true memory).0
down-Becomes_example = down-Becomes options web 110 4 (some crashed) true memory

abbrev story : List (ℕ × Happening)
story = (10, found_up false) ∷ (20, found_down (some crashed)) ∷ (30, found_down none) ∷ []

abbrev failed_at : List ℕ
failed_at = 30 ∷ 40 ∷ 50 ∷ []
