-- ===== src/Examples/Jobs.antt =====
-- Jobs of two applications.
use shipwick.Base.{
  ℕ, ◌+◌, ◌*◌, ◌≡◌, ◌≢◌, ◌↔◌, subst, not, ◌||◌, ◌&&◌, ◌-◌, refl, true, false, some, none, List, [],
  ◌∷◌, find_row,
}
use shipwick.Cron.{Schedule, matches_day, matches, advance, search, next}
use shipwick.Cron.Calendar.{
  year_start, year_of, day_of_year, day_of_month, month_of, weekday_of, years_later,
}
use shipwick.Locks.{idle}
use shipwick.Scheduling.{
  Job, App, Agent, is_due, start_job, start_with, claim_exclusive, claim_job, start_claimed,
  begin_op, look_at, schedule_app, claimed, look_at_all, schedule_jobs, forget_deleted,
}
use shipwick.Cron.Search.{IsFirst, next-IsFirst}
use shipwick.Scheduling.Due.{Fires, is_due_iff}
use shipwick.Scheduling.Starts.{is_startable, IsSilent, schedule_app-claimed, schedule_app-silent}
use shipwick.Scheduling.Single.{
  runs, one_if, IsSingle, Reach, starts, fresh, next as then, Reach-IsSingle,
}
use shipwick.Scheduling.Orders.{Reach-AreTiled}
use shipwick.Scheduling.Tiles.{
  World, Reach as Reach_world, AreTiled, fresh as fresh_world, next as then_world, looks,
}

-- * * * * *
abbrev always : Schedule
always = record {
  minutes = 1_152_921_504_606_846_975;
  hours = 16_777_215;
  days = 4_294_967_294;
  months = 8190;
  weekdays = 255;
  any_day = true;
  any_weekday = true;
}

-- 0 3 30 2 *
abbrev never : Schedule
never = record {
  minutes = 1;
  hours = 8;
  days = 1_073_741_824;
  months = 4;
  weekdays = 255;
  any_day = false;
  any_weekday = true;
}

-- The 1st of March 2026 at midnight.
abbrev minute : ℕ
minute = 739_981 * 1440

next_minute : next always (minute * 60) ≡ some (minute + 1)
unfolding next search matches matches_day advance years_later year_start year_of day_of_year
    day_of_month month_of weekday_of
next_minute = refl

fires : next always (minute * 60) ≢ none
fires e = cc (e, next_minute)

is_due_iff_example :
    (is_due minute (minute + 5) (some always) ≡ true) ↔ Fires always minute (minute + 5)
is_due_iff_example = is_due_iff always minute (minute + 5) fires

no_minute : next never (minute * 60) ≡ none
unfolding next search matches matches_day advance years_later year_start year_of day_of_year
    day_of_month month_of weekday_of
no_minute = refl

is_silent : IsSilent never minute
is_silent u after before =
    subst (IsFirst never (minute + 1) (years_later 8 739_981 * 1440 + 1)) no_minute
      (next-IsFirst never (minute * 60)) u after before

abbrev new_agent : Agent
new_agent = record { engine = idle; claims = []; last_tick = []; background = [] }

abbrev jobs : List Job
jobs = record { name = 1; schedule = some always } ∷ record { name = 2; schedule = none } ∷ []

new_agent-IsSingle : IsSingle new_agent
new_agent-IsSingle app job named = refl

schedule_app-claimed_example :
    (runs 7 1 ((schedule_app (λ j. true) 7 minute (minute + 5) jobs new_agent).background)
      ≡ one_if (
          claimed 7 1 []
          || (not new_agent.engine.closed && is_startable (λ j. true) minute (minute + 5) 1 jobs)))
    × (claimed 7 1 ((schedule_app (λ j. true) 7 minute (minute + 5) jobs new_agent).claims) ≡ (
        claimed 7 1 []
        || (not new_agent.engine.closed && is_startable (λ j. true) minute (minute + 5) 1 jobs)))
schedule_app-claimed_example =
    schedule_app-claimed (λ j. true) 7 minute (minute + 5) 1 jobs new_agent new_agent-IsSingle
      (λ e. cc e)

schedule_app-silent_example :
    runs 7 1
      (schedule_app
        (λ j. true)
        7
        minute
        (minute + 1)
        (record { name = 1; schedule = some never } ∷ [])
        new_agent).background
    ≡ 1
schedule_app-silent_example =
    schedule_app-silent (λ j. true) 7 minute (minute + 1) 1 never [] new_agent new_agent-IsSingle
      (λ e. cc e) refl refl is_silent

-- A job of application 7 has begun.
abbrev begun_agent : Agent
begun_agent = record {
  engine = record { closed = false; locks = []; ops = 1 };
  claims = record { app = 7; job = 1 } ∷ [];
  last_tick = [];
  background = record { app = 7; job = 1 } ∷ [];
}

Reach-begun_agent : Reach begun_agent
unfolding start_job start_with claim_exclusive claim_job start_claimed begin_op
Reach-begun_agent = then fresh (starts true 7 1)

Reach-IsSingle_example : IsSingle begun_agent
Reach-IsSingle_example = Reach-IsSingle Reach-begun_agent

-- The scheduler looks twice; the second time the job is due again, and its run goes on.
abbrev app : App
app = record { name = 7; active_deployment = some 3; is_running = true }

abbrev looked_twice : World
looked_twice = record {
  agent = record begun_agent { last_tick = record { app = 7; minute = minute + 3 } ∷ [] };
  windows =
      record { app = 7; last = minute; upto = minute + 3 }
      ∷ record { app = 7; last = minute - 1; upto = minute }
      ∷ [];
}

Reach-looked_twice : Reach_world looked_twice
unfolding look_at start_job find_row next search matches matches_day advance years_later year_start
    year_of day_of_year day_of_month month_of weekday_of
Reach-looked_twice =
    then_world (then_world fresh_world (looks (λ j. true) (λ a. some jobs) minute app))
      (looks (λ j. true) (λ a. some jobs) (minute + 3) app)

Reach-AreTiled_example : AreTiled looked_twice
Reach-AreTiled_example = Reach-AreTiled Reach-looked_twice

-- One tick starts the job that is due and leaves the application free.
one_tick :
    schedule_jobs (λ j. true) (λ a. some jobs) minute (app ∷ []) new_agent
    ≡ record begun_agent { last_tick = record { app = 7; minute = minute } ∷ [] }
unfolding schedule_jobs look_at_all forget_deleted find_row next search matches matches_day advance
    years_later year_start year_of day_of_year day_of_month month_of weekday_of
one_tick = refl
