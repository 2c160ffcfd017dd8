-- ===== src/Supervisor.antt =====
-- The supervisor's memory of one replica, and what its handlers do to it:
-- agent/internal/deploy/supervisor.go, with `isReady` of views.go and `StartupBudget` of engine.go.
-- A time is a number of nanoseconds since Go's zero time, which is 0; durations are not negative.
-- The handlers of the whole supervisor are in Supervisor/Handlers.antt.
pub mod Book
pub mod Handlers
pub mod Pacing
pub mod Policy
pub mod Probes
pub mod Refinement
pub mod Ticks
use shipwick.Base.{
  ℕ, zero, suc, ◌+◌, ◌*◌, min, Bool, true, false, not, ◌&&◌, ◌||◌, Option, none, some, List, [],
  ◌∷◌, leb, ltb, ◌==◌, if◌then◌else◌, length, get_or,
}

pub record Options : Type 0 where
  pub restart_delays : List ℕ
  pub crash_loop_delay : ℕ
  pub stable_after : ℕ
  pub startup_poll_interval : ℕ

pub data Health : Type 0 where
  unchecked unknown starting healthy unhealthy : Health

pub data RestartPolicy : Type 0 where
  always on_failure never : RestartPolicy

pub record HealthCheck : Type 0 where
  pub interval : ℕ
  pub retries : ℕ
  pub start_period : ℕ

-- What the supervisor reads of a deployment's spec.
pub record Spec : Type 0 where
  pub health : Option HealthCheck
  pub policy : RestartPolicy

pub record ReplicaState : Type 0 where
  pub restarts : ℕ
  pub last_restart : ℕ
  pub next_restart : ℕ
  pub exit_seen : Bool
  pub leave_stopped : Bool
  pub crash_loop : Bool
  pub health : Health
  pub failures : ℕ
  pub up_since : ℕ
  pub last_probe : ℕ
  pub probing : Bool

-- How a container ended, as Docker reports it.
pub record Exit : Type 0 where
  pub exit_code : ℕ
  pub oom_killed : Bool

abbrev pub blank : Health → ReplicaState
blank h = record {
  restarts = 0;
  last_restart = 0;
  next_restart = 0;
  exit_seen = false;
  leave_stopped = false;
  crash_loop = false;
  health = h;
  failures = 0;
  up_since = 0;
  last_probe = 0;
  probing = false;
}

-- The first sight of a container, in `state`.
unfoldable pub first_sight : Spec → ReplicaState
first_sight spec = blank (elim spec.health [ none ↦ unchecked | some h ↦ unknown ])

-- What `reset` puts in the place of a container's history.
unfoldable pub reset_state : Bool → ReplicaState
reset_state has_health_check = blank (if has_health_check then starting else unchecked)

unfoldable pub marked_healthy : Option ReplicaState → ReplicaState
marked_healthy none = blank healthy
marked_healthy (some st) = record st { health = healthy; failures = 0 }

unfoldable pub startup_budget : HealthCheck → ℕ
startup_budget h = h.start_period + h.interval * h.retries

abbrev pub is_unhealthy : Health → Bool
is_unhealthy unhealthy = true
is_unhealthy _ = false

abbrev pub is_healthy : Health → Bool
is_healthy healthy = true
is_healthy _ = false

abbrev pub is_starting : Health → Bool
is_starting starting = true
is_starting _ = false

abbrev pub is_unknown : Health → Bool
is_unknown unknown = true
is_unknown _ = false

abbrev pub is_never : RestartPolicy → Bool
is_never never = true
is_never _ = false

unfoldable pub is_ready : Bool → Health → Bool
is_ready running unchecked = running
is_ready running unknown = running
is_ready running healthy = running
is_ready running _ = false

-- The wait before restart number n + 1 of a run of restarts.
unfoldable pub delay : Options → ℕ → ℕ
delay o n = get_or o.restart_delays n o.crash_loop_delay

unfoldable pub should_restart : RestartPolicy → Exit → Bool
should_restart never c = false
should_restart on_failure c = not (c.exit_code == 0) || c.oom_killed
should_restart always c = true

-- The bookkeeping of `restart`, whether or not the container could be brought back.
unfoldable pub restarted : Options → ℕ → ReplicaState → ReplicaState
restarted o now st =
    let attempt = st.restarts + 1 in
    record st {
      restarts = attempt;
      last_restart = now;
      next_restart = now + delay o attempt;
      exit_seen = false;
      crash_loop = st.crash_loop || leb (length o.restart_delays) attempt;
      health = elim st.health [ unchecked ↦ unchecked | _ ↦ starting ];
      failures = 0;
      up_since = 0;
      probing = false;
    }

-- What one look at a running replica decides, under the lock of the memory.
pub record Look : Type 0 where
  pub state : ReplicaState
  pub recovered : Bool
  pub probes : Bool
  pub restarts_unhealthy : Bool

unfoldable pub is_stable : Options → ℕ → ReplicaState → Bool
is_stable o now st =
    ltb 0 st.restarts
    && (not (is_unhealthy st.health) && not (is_starting st.health))
    && leb (st.last_restart + o.stable_after) now

unfoldable pub forgive : ReplicaState → ReplicaState
forgive st = record st { restarts = 0; crash_loop = false; next_restart = 0 }

unfoldable pub seen_running : ℕ → ReplicaState → ReplicaState
seen_running now st = record st {
  exit_seen = false;
  leave_stopped = false;
  up_since = if st.up_since == 0 then now else st.up_since;
}

-- `has_ip`: the container has an address to probe.
unfoldable pub check_health : Options → Spec → ℕ → Bool → Bool → HealthCheck → ReplicaState → Look
check_health o spec now has_ip recovered h st =
    let again =
      is_unhealthy st.health && not (is_never spec.policy) && not (ltb now st.next_restart) in
    let every =
      if is_starting st.health || is_unknown st.health
      then min h.interval o.startup_poll_interval
      else h.interval in
    let probes = not again && not st.probing && has_ip && leb (st.last_probe + every) now in
    record {
      state = if probes then record st { probing = true; last_probe = now } else st;
      recovered = recovered;
      probes = probes;
      restarts_unhealthy = again;
    }

unfoldable pub look : Options → Spec → ℕ → Bool → ReplicaState → Look
unfolding is_stable forgive seen_running check_health
look o spec now has_ip st =
    let up = seen_running now st in
    let stable = is_stable o now up in
    let recovered = stable && up.crash_loop in
    let calm = if stable then forgive up else up in
    elim spec.health [
      | none ↦ record {
        state = calm;
        recovered = recovered;
        probes = false;
        restarts_unhealthy = false;
      }
      | some h ↦ check_health o spec now has_ip recovered h calm
    ]

-- One probe that was launched at `now`, folded into the state.
unfoldable pub probed : ℕ → HealthCheck → Bool → ReplicaState → ReplicaState
probed now h true st = record st { probing = false; health = healthy; failures = 0 }
probed now h false st =
    let done = record st { probing = false } in
    if is_starting st.health
    then (if ltb (st.up_since + startup_budget h) now
        then record done { health = unhealthy }
        else done)
    else if is_unhealthy st.health
    then done
    else record done {
      failures = st.failures + 1;
      health = if leb h.retries (st.failures + 1) then unhealthy else st.health;
    }

-- A replica that is found down, before its end is looked at.
unfoldable pub seen_down : Spec → ReplicaState → ReplicaState
seen_down spec st = elim spec.health [
  | none ↦ record st { up_since = 0 }
  | some h ↦ record st { up_since = 0; health = unhealthy; failures = 0 }
]

-- The first tick that finds it down decides its fate.
unfoldable pub decided : Options → Spec → ℕ → Exit → ReplicaState → ReplicaState
decided o spec now c st = record st {
  exit_seen = true;
  leave_stopped = not (should_restart spec.policy c);
  next_restart = now + delay o st.restarts;
}

unfoldable pub due : ℕ → ReplicaState → Bool
due now st = not st.leave_stopped && not (ltb now st.next_restart)
