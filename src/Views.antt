-- ===== src/Views.antt =====
-- What the operator is shown of an application: `isReady`, `summarize` and `applicationStatus` of
-- agent/internal/deploy/views.go. Names are numbers; texts that are copied are left out.
pub mod Statuses
use shipwick.Base.{
  ℕ, ◌+◌, Bool, true, false, not, ◌&&◌, ◌||◌, Option, none, some, List, [], ◌∷◌, leb, ◌==◌,
  if◌then◌else◌, any, keep, length,
}
use shipwick.Records.{DesiredState, running, stopped}
use shipwick.Supervisor.{Health, is_ready}
use shipwick.Supervisor.Handlers.{Supervisor, snapshot}

pub data ApplicationStatus : Type 0 where
  app_deploying app_failed app_stopped app_crash_loop app_healthy app_down app_degraded :
      ApplicationStatus

pub record ReplicaCount : Type 0 where
  pub desired : ℕ
  pub running : ℕ
  pub healthy : ℕ

pub record Container : Type 0 where
  pub id : ℕ
  pub app : ℕ
  pub is_job : Bool
  pub deployment_id : ℕ
  pub running : Bool

-- What is read of the active deployment, and of a rollout that has replicas serving.
pub record Active : Type 0 where
  pub id : ℕ
  pub replicas : ℕ
  pub is_static : Bool

pub record Serving : Type 0 where
  pub members : List ℕ
  pub desired : ℕ

abbrev pub is_stopped : DesiredState → Bool
is_stopped stopped = true
is_stopped running = false

unfoldable pub application_status :
    Bool → DesiredState → ReplicaCount → Bool → Bool → ApplicationStatus
application_status has_active state replicas deploying crash_loop =
    if not has_active && deploying
    then app_deploying
    else if not has_active
    then app_failed
    else if is_stopped state
    then app_stopped
    else if crash_loop
    then app_crash_loop
    else if leb replicas.desired replicas.healthy
    then app_healthy
    else if replicas.healthy == 0
    then app_down
    else app_degraded

-- Whether a container is one of the replicas that count.
unfoldable pub counts : Active → Option Serving → Container → Bool
counts active none c = c.deployment_id == active.id
counts active (some o) c = any (λ m. m == c.id) o.members

abbrev pub is_counted : ℕ → Active → Option Serving → Container → Bool
is_counted app active rolling c = c.app == app && not c.is_job && counts active rolling c

unfoldable pub desired_replicas : Active → Option Serving → ℕ
desired_replicas active none = if active.is_static then 0 else active.replicas
desired_replicas active (some o) = o.desired

abbrev pub is_up : Container → Bool
is_up c = c.running

abbrev pub is_serving : Supervisor → Container → Bool
is_serving s c = is_ready c.running (snapshot c.id s).0

abbrev pub is_looping : Supervisor → Container → Bool
is_looping s c = (snapshot c.id s).1

-- The loop over the containers, and the replicas that it counts.
unfoldable pub counted :
    ℕ → Active → Option Serving → Supervisor → List Container → ReplicaCount × Bool
unfolding desired_replicas counts
counted app active rolling s [] =
    (record { desired = desired_replicas active rolling; running = 0; healthy = 0 }, false)
counted app active rolling s (c ∷ cs) =
    let (n, looping) = counted app active rolling s cs in
    if is_counted app active rolling c
    then (
      record n {
        running = (if is_up c then 1 else 0) + n.running;
        healthy = (if is_serving s c then 1 else 0) + n.healthy;
      },
      is_looping s c || looping,
    )
    else (n, looping)

unfoldable pub summarize :
    ℕ
    → Option Active
    → DesiredState
    → Option Serving
    → Bool
    → Supervisor
    → List Container
    → ReplicaCount × ApplicationStatus
unfolding application_status counted
summarize app none state rolling deploying s cs =
    let zero_count : ReplicaCount = record { desired = 0; running = 0; healthy = 0 } in
    (zero_count, application_status false state zero_count deploying false)
summarize app (some active) state rolling deploying s cs =
    let (n, looping) = counted app active rolling s cs in
    (n, application_status true state n deploying looping)
