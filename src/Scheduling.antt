-- ===== src/Scheduling.antt =====
-- The scheduler of jobs: agent/internal/deploy/schedule.go, with `claim`, `release`, `startJob` and
-- `beginOp` of agent/internal/deploy/jobs.go and `scheduledBetween` of deploy/backups.go. A time is a
-- minute since the 1st of March of the year 0. Names are numbers: they are only compared. A schedule
-- stands here as what `cron.Parse` makes of it, which may be nothing.
pub mod Due
pub mod Single
pub mod Starts
pub mod Tiles
pub mod Orders
use shipwick.Base.{
  ℕ, ◌+◌, ◌-◌, ◌*◌, Bool, true, false, not, ◌&&◌, ◌||◌, Option, none, some, List, [], ◌∷◌, ltb,
  ◌==◌, if◌then◌else◌, is_none, keep, any, find_row,
}
use shipwick.Cron.{Schedule, next}
use shipwick.Locks.{Engine, Attempt, took, waits, busy, shutting_down, try_lock, unlock, op_done}

pub record Job : Type 0 where
  pub name : ℕ
  pub schedule : Option Schedule

pub record App : Type 0 where
  pub name : ℕ
  pub active_deployment : Option ℕ
  pub is_running : Bool

-- A row of the map of claimed jobs.
pub record Claim : Type 0 where
  pub app : ℕ
  pub job : ℕ

-- Up to which minute the scheduler has looked at an application.
pub record Seen : Type 0 where
  pub app : ℕ
  pub minute : ℕ

-- A run whose container is collected in the background.
pub record JobRun : Type 0 where
  pub app : ℕ
  pub job : ℕ

pub record Agent : Type 0 where
  pub engine : Engine
  pub claims : List Claim
  pub last_tick : List Seen
  pub background : List JobRun

pub data Outcome : Type 0 where
  started job_running closing failed : Outcome

-- `run`, the name of the runs that have no job.
abbrev pub command_job : ℕ
command_job = 0

abbrev pub is_claim : ℕ → ℕ → Claim → Bool
is_claim app job c = c.app == app && c.job == job

abbrev pub claimed : ℕ → ℕ → List Claim → Bool
claimed app job claims = any (is_claim app job) claims

unfoldable pub claim_job : ℕ → ℕ → List Claim → Option (List Claim)
claim_job app job claims =
    if claimed app job claims then none else some (record { app = app; job = job } ∷ claims)

unfoldable pub release_claim : ℕ → ℕ → List Claim → List Claim
release_claim app job claims = keep (λ c. not (is_claim app job c)) claims

-- The claim that `startJob` makes before it does anything, and how it gives it up.
unfoldable pub claim_exclusive : ℕ → ℕ → List Claim → Option (List Claim)
unfolding claim_job
claim_exclusive app job claims =
    if job == command_job then some claims else claim_job app job claims

unfoldable pub release_exclusive : ℕ → ℕ → List Claim → List Claim
unfolding release_claim
release_exclusive app job claims =
    if job == command_job then claims else release_claim app job claims

unfoldable pub begin_op : Engine → Option Engine
begin_op e = if e.closed then none else some (record e { ops = e.ops + 1 })

-- The rest of `startJob` once the claim is made; `launches` says whether the run is recorded and its
-- container starts.
unfoldable pub start_claimed : Bool → ℕ → ℕ → Option Engine → Agent → Agent × Outcome
unfolding release_exclusive op_done
start_claimed launches app job none s =
    (record s { claims = release_exclusive app job s.claims }, closing)
start_claimed launches app job (some e) s =
    if launches
    then (
      record s { engine = e; background = record { app = app; job = job } ∷ s.background },
      started,
    )
    else (record s { engine = op_done e; claims = release_exclusive app job s.claims }, failed)

unfoldable pub start_with : Bool → ℕ → ℕ → Option (List Claim) → Agent → Agent × Outcome
unfolding start_claimed begin_op
start_with launches app job none s = (s, job_running)
start_with launches app job (some claims) s =
    start_claimed launches app job (begin_op s.engine) (record s { claims = claims })

unfoldable pub start_job : Bool → ℕ → ℕ → Agent → Agent × Outcome
unfolding start_with claim_exclusive
start_job launches app job s = start_with launches app job (claim_exclusive app job s.claims) s

-- The end of the goroutine that collects a run, but for what it records.
unfoldable pub collect : JobRun → Agent → Agent
unfolding release_exclusive op_done
collect r s = record s {
  engine = op_done s.engine;
  claims = release_exclusive r.app r.job s.claims;
}

-- `!schedule.Next(last).After(minute)`: the zero time, which stands for no time at all, is after
-- nothing.
unfoldable pub not_after : ℕ → Option ℕ → Bool
not_after minute none = true
not_after minute (some t) = not (ltb minute t)

unfoldable pub is_due : ℕ → ℕ → Option Schedule → Bool
unfolding not_after
is_due last minute none = false
is_due last minute (some s) = not_after minute (next s (last * 60))

-- Which launches succeed is known by the name of the job.
unfoldable pub schedule_app : (ℕ → Bool) → ℕ → ℕ → ℕ → List Job → Agent → Agent
unfolding is_due start_job
schedule_app launches app last minute [] s = s
schedule_app launches app last minute (j ∷ js) s =
    schedule_app launches app last minute js
      (if is_due last minute j.schedule then (start_job (launches j.name) app j.name s).0 else s)

abbrev pub known : ℕ → List Seen → Option ℕ
known app seen = elim (find_row (λ (l : Seen). l.app) app seen) [
  | none ↦ none
  | some l ↦ some l.minute
]

abbrev pub last_or : ℕ → Option ℕ → ℕ
last_or minute none = minute - 1
last_or minute (some last) = last

-- The window that a tick looks at, if it looks at the application.
unfoldable pub window : App → ℕ → List Seen → Option ℕ
unfolding find_row
window a minute seen =
    let last = last_or minute (known a.name seen) in
    if is_none a.active_deployment || not a.is_running
    then none
    else if not (ltb last minute)
    then none
    else some last

unfoldable pub see : ℕ → ℕ → List Seen → List Seen
see app minute seen =
    record { app = app; minute = minute } ∷ keep (λ (l : Seen). not (l.app == app)) seen

-- `jobs` are those of the active deployment, if its record is read.
unfoldable pub schedule_held : (ℕ → Bool) → App → ℕ → ℕ → Option (List Job) → Agent → Agent
unfolding schedule_app see unlock
schedule_held launches a last minute none s = record s {
  engine = unlock a.name s.engine;
  last_tick = see a.name minute s.last_tick;
}
schedule_held launches a last minute (some js) s =
    let t = schedule_app launches a.name last minute js s in
    record t { engine = unlock a.name t.engine; last_tick = see a.name minute t.last_tick }

unfoldable pub with_lock : Option ℕ → Attempt → Option (ℕ × Engine)
with_lock none t = none
with_lock (some last) (took e) = some (last, e)
with_lock (some last) waits = none
with_lock (some last) busy = none
with_lock (some last) shutting_down = none

-- The window that is taken, with the engine that holds the application.
unfoldable pub taken_window : App → ℕ → Agent → Option (ℕ × Engine)
unfolding window try_lock with_lock
taken_window a minute s = with_lock (window a minute s.last_tick) (try_lock a.name true s.engine)

unfoldable pub look_through :
    (ℕ → Bool) → (ℕ → Option (List Job)) → ℕ → App → Option (ℕ × Engine) → Agent → Agent
unfolding schedule_held
look_through launches jobs minute a none s = s
look_through launches jobs minute a (some (last, e)) s =
    schedule_held launches a last minute (jobs a.name) (record s { engine = e })

-- One turn of the loop of `scheduleJobs`.
unfoldable pub look_at : (ℕ → Bool) → (ℕ → Option (List Job)) → ℕ → App → Agent → Agent
unfolding taken_window look_through
look_at launches jobs minute a s = look_through launches jobs minute a (taken_window a minute s) s

unfoldable pub look_at_all : (ℕ → Bool) → (ℕ → Option (List Job)) → ℕ → List App → Agent → Agent
unfolding look_at
look_at_all launches jobs minute [] s = s
look_at_all launches jobs minute (a ∷ others) s =
    look_at_all launches jobs minute others (look_at launches jobs minute a s)

unfoldable pub forget_deleted : List App → Agent → Agent
forget_deleted apps s = record s {
  last_tick = keep (λ (l : Seen). any (λ (a : App). a.name == l.app) apps) s.last_tick;
}

unfoldable pub schedule_jobs : (ℕ → Bool) → (ℕ → Option (List Job)) → ℕ → List App → Agent → Agent
unfolding look_at_all forget_deleted
schedule_jobs launches jobs minute apps s =
    forget_deleted apps (look_at_all launches jobs minute apps s)
