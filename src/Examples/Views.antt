-- ===== src/Examples/Views.antt =====
-- Applications as they are shown, and a tick of the supervisor.
use shipwick.Base.{ℕ, ◌≡◌, ◌≤◌, ◌↔◌, refl, true, false, not, ◌&&◌, some, none, List, [], ◌∷◌, any}
use shipwick.Records.{running}
use shipwick.Records.Replicas.{ReplicaRow}
use shipwick.Supervisor.{Options, blank, always, unhealthy, healthy}
use shipwick.Supervisor.Handlers.{Supervisor, down, up}
use shipwick.Supervisor.Ticks.{Visit}
use shipwick.Alerts.{get as alert}
use shipwick.Outage.{docker_key, docker_answers}
use shipwick.Outage.Standing.{IsTold, docker_answers-IsTold}
use shipwick.Views.{
  Active, Container, app_crash_loop, app_down, app_stopped, is_stopped, is_counted, is_looping,
  is_serving, summarize,
}
use shipwick.Views.Statuses.{summarize_lem}

abbrev memory : Supervisor
memory = record {
  states = (4, blank unhealthy) ∷ (5, blank healthy) ∷ (9, blank healthy) ∷ [];
  recreate = [];
}

abbrev container : ℕ → Container
container id = record { id = id; app = 7; is_job = false; deployment_id = 1; running = true }

abbrev containers : List Container
containers = container 4 ∷ container 5 ∷ []

abbrev active : Active
active = record { id = 1; replicas = 2; is_static = false }

summarize_lem_example :
    ((summarize 7 (some active) running none false memory containers).0.healthy
      ≤ (summarize 7 (some active) running none false memory containers).0.running)
    × (((summarize 7 (some active) running none false memory containers).1 ≡ app_stopped)
        ↔ (is_stopped running ≡ true))
    × (((summarize 7 (some active) running none false memory containers).1 ≡ app_crash_loop) ↔ (
        (not (is_stopped running)
          && any (λ c. is_counted 7 active none c && is_looping memory c) containers)
        ≡ true))
    × ((summarize 7 (some active) running none false memory containers).1 ≡ app_down
        → any (λ c. is_counted 7 active none c && is_serving memory c) containers ≡ false)
summarize_lem_example = summarize_lem 7 active running none false memory containers

abbrev options : Options
options = record {
  restart_delays = 0 ∷ 5 ∷ [];
  crash_loop_delay = 60;
  stable_after = 600;
  startup_poll_interval = 2;
}

-- Container 4 is down; 9 belongs to an application that a deployment owns.
abbrev visits : List Visit
visits =
    record {
      deployment = some 1;
      is_wanted = true;
      free = true;
      spec = record { health = none; policy = always };
      desired = 2;
      replicas =
          record { index = 1; container = 4; found = down none; comes_back = true }
          ∷ record { index = 2; container = 5; found = up true; comes_back = true }
          ∷ [];
      created = [];
      fails = false;
    }
    ∷ record {
      deployment = some 2;
      is_wanted = true;
      free = false;
      spec = record { health = none; policy = always };
      desired = 1;
      replicas = record { index = 1; container = 9; found = down none; comes_back = true } ∷ [];
      created = [];
      fails = false;
    }
    ∷ []

docker_answers-IsTold_example :
    IsTold
      (docker_answers false true 60 60 65 none []).outage
      (docker_answers false true 60 60 65 none []).book
    × ((docker_answers false true 60 60 65 none []).goes_on ≡ true
        → (true ≡ false)
          × ((docker_answers false true 60 60 65 none []).outage ≡ none)
          × (alert docker_key (docker_answers false true 60 60 65 none []).book ≡ none))
unfolding alert
docker_answers-IsTold_example = docker_answers-IsTold false true 60 60 65 none [] refl

abbrev rows : List ReplicaRow
rows =
    record { deployment_id = 1; index = 1; container_id = 4; restarts = 0; removed_at = none }
    ∷ record { deployment_id = 1; index = 2; container_id = 5; restarts = 1; removed_at = none }
    ∷ []
