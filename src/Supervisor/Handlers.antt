-- ===== src/Supervisor/Handlers.antt =====
-- The supervisor's handlers over its books: what agent/internal/deploy/supervisor.go does with a
-- replica that runs, is down, has answered a probe, or is missing. What Docker answers is an
-- argument. An event stands for a line of the application's feed, without its words.
use shipwick.Base.{
  ℕ, ◌+◌, Bool, true, false, not, ◌&&◌, ◌||◌, Option, none, some, List, [], ◌∷◌, ◌++◌, leb, ltb,
  ◌==◌, if◌then◌else◌, length, any, keep, one_to, map,
}
use shipwick.Supervisor.{
  Options, Spec, Health, HealthCheck, ReplicaState, Exit, unchecked, first_sight, reset_state,
  marked_healthy, is_starting, is_healthy, is_unhealthy, delay, should_restart, restarted, look,
  probed, seen_down, decided, due,
}
use shipwick.Supervisor.Book.{get, put, only}

pub data Event : Type 0 where
  stable : ℕ → Event
  went_down : ℕ → ℕ → Event
  left_stopped : ℕ → Event
  back_up : ℕ → ℕ → Event
  not_restarted : ℕ → ℕ → Event
  crash_looping : ℕ → ℕ → Event
  not_up_in_time : ℕ → Event
  failed_checks : ℕ → Event
  turned_healthy : ℕ → Event
  disappeared : ℕ → Event
  recreated : ℕ → Event
  not_recreated : ℕ → ℕ → Event
  -- The restart is counted by the alerts and in the database.
  counted : ℕ → ℕ → Event

pub record RecreateState : Type 0 where
  pub failures : ℕ
  pub next : ℕ

pub record Supervisor : Type 0 where
  pub states : List (ℕ × ReplicaState)
  pub recreate : List (ℕ × RecreateState)

-- The bookkeeping of a container, made at first sight.
unfoldable pub state : Spec → ℕ → Supervisor → ReplicaState
state spec id s = elim (get id s.states) [ none ↦ first_sight spec | some st ↦ st ]

abbrev pub set_state : ℕ → ReplicaState → Supervisor → Supervisor
set_state id st s = record s { states = put id st s.states }

-- `reset`, after a start on request.
unfoldable pub reset : ℕ → Bool → Supervisor → Supervisor
reset id has_health_check s = set_state id (reset_state has_health_check) s

unfoldable pub mark_healthy : ℕ → Supervisor → Supervisor
mark_healthy id s = set_state id (marked_healthy (get id s.states)) s

-- What the API is told.
unfoldable pub snapshot : ℕ → Supervisor → Health × Bool
snapshot id s = elim (get id s.states) [
  | none ↦ (unchecked, false)
  | some st ↦ (st.health, st.crash_loop)
]

-- Forgets the containers that do not exist and the deployments that are not active.
unfoldable pub forget_gone : (ℕ → Bool) → (ℕ → Bool) → Supervisor → Supervisor
forget_gone listed active s = record {
  states = only listed s.states;
  recreate = only active s.recreate;
}

unfoldable pub restart_events : Options → ℕ → ℕ → Bool → ReplicaState → List Event
restart_events o now id done st =
    let attempt = st.restarts + 1 in
    (if done then back_up id attempt ∷ counted id now ∷ [] else not_restarted id attempt ∷ [])
    ++ (if not st.crash_loop && leb (length o.restart_delays) attempt
        then crash_looping id attempt ∷ []
        else [])

-- `done`: Docker brought the container back.
unfoldable pub restart : Options → ℕ → ℕ → Bool → Supervisor → Supervisor × List Event
unfolding restart_events
restart o now id done s = elim (get id s.states) [
  | none ↦ (s, [])
  | some st ↦ (set_state id (restarted o now st) s, restart_events o now id done st)
]

-- The last part of the result: a probe is launched.
unfoldable pub supervise_running :
    Options → Spec → ℕ → ℕ → Bool → Bool → Supervisor → Supervisor × List Event × Bool
unfolding state restart
supervise_running o spec now id has_ip done s =
    let l = look o spec now has_ip (state spec id s) in
    let seen = set_state id l.state s in
    let said = if l.recovered then stable id ∷ [] else [] in
    let (again, events) = restart o now id done seen in
    if l.restarts_unhealthy then (again, said ++ events, l.probes) else (seen, said, l.probes)

unfoldable pub probe_events : ℕ → Health → Health → List Event
probe_events id was became =
    if is_unhealthy became && is_starting was
    then not_up_in_time id ∷ []
    else if is_unhealthy became && not (is_unhealthy was)
    then failed_checks id ∷ []
    else if is_healthy became && (is_unhealthy was || is_starting was)
    then turned_healthy id ∷ []
    else []

-- The answer to a probe that was launched at `now`.
unfoldable pub probe : ℕ → ℕ → HealthCheck → Bool → Supervisor → Supervisor × List Event
unfolding probe_events
probe id now h answer s = elim (get id s.states) [
  | none ↦ (s, [])
  | some st ↦ (
    set_state id (probed now h answer st) s,
    probe_events id st.health (probed now h answer st).health,
  )
]

-- The restart falls due, or the tick waits.
unfoldable pub when_due :
    Options → ℕ → ℕ → Bool → ReplicaState → Supervisor → Supervisor × List Event
unfolding restart
when_due o now id done st s = if due now st then restart o now id done s else (s, [])

unfoldable pub after_inspection :
    Options → Spec → ℕ → ℕ → Exit → Bool → ReplicaState → Supervisor → Supervisor × List Event
unfolding when_due
after_inspection o spec now id c done st s =
    let fate = decided o spec now c st in
    let marked = set_state id fate s in
    let (t, events) = when_due o now id done fate marked in
    if should_restart spec.policy c
    then (t, went_down id (delay o st.restarts) ∷ events)
    else (marked, left_stopped id ∷ [])

-- `inspected` is what Docker says of the container's end, `none` if it could not be asked.
unfoldable pub supervise_down :
    Options → Spec → ℕ → ℕ → Option Exit → Bool → Supervisor → Supervisor × List Event
unfolding state when_due after_inspection
supervise_down o spec now id inspected done s =
    let st = seen_down spec (state spec id s) in
    let seen = set_state id st s in
    if st.exit_seen then when_due o now id done st seen else elim inspected [
      | none ↦ (seen, [])
      | some c ↦ after_inspection o spec now id c done st seen
    ]

abbrev or_new : Option RecreateState → RecreateState
or_new none = record { failures = 0; next = 0 }
or_new (some st) = st

abbrev is_some {ℓ} : {A : Type ℓ} → Option A → Bool
is_some none = false
is_some (some a) = true

unfoldable pub reset_all : Bool → List ℕ → Supervisor → Supervisor
unfolding reset
reset_all has_health_check [] s = s
reset_all has_health_check (id ∷ ids) s =
    reset_all has_health_check ids (reset id has_health_check s)

-- `d` is the active deployment; Docker creates its missing replicas in the containers `created`,
-- and `failed` says that it did not create them all.
unfoldable pub recreate_replicas :
    Options → Spec → ℕ → ℕ → ℕ → List ℕ → Bool → Supervisor → Supervisor × List Event
recreate_replicas o spec now d missing created failed s =
    let st = or_new (get d s.recreate) in
    let wait = delay o st.failures in
    let known = record s { recreate = put d st s.recreate } in
    if ltb now st.next
    then (known, [])
    else if failed
    then (
      record s {
        recreate = put d (record { failures = st.failures + 1; next = now + wait }) s.recreate;
      },
      not_recreated missing wait ∷ [],
    )
    else (
      reset_all (is_some spec.health) created
          (record s { recreate = only (λ k. not (k == d)) s.recreate }),
      map recreated created,
    )

-- What a tick finds of a replica of the active deployment: its container is gone, could not be asked
-- for, runs (with an address or not), is down with what Docker says of its end, or is in a state
-- that is left alone.
pub data Found : Type 0 where
  gone : Found
  unasked : Found
  up : Bool → Found
  down : Option Exit → Found
  other : Found

-- A replica of the record, with what is found and whether Docker would bring it back.
pub record Replica : Type 0 where
  pub index : ℕ
  pub container : ℕ
  pub found : Found
  pub comes_back : Bool

unfoldable pub supervise_replica :
    Options → Spec → ℕ → Replica → Supervisor → Supervisor × List Event
unfolding supervise_running supervise_down
supervise_replica o spec now r s = elim r.found [
  | gone ↦ (s, disappeared r.index ∷ [])
  | unasked ↦ (s, [])
  | up has_ip ↦
      let (t, events, launched) = supervise_running o spec now r.container has_ip r.comes_back s in
      (t, events)
  | down inspected ↦ supervise_down o spec now r.container inspected r.comes_back s
  | other ↦ (s, [])
]

unfoldable pub supervise_replicas :
    Options → Spec → ℕ → List Replica → Supervisor → Supervisor × List Event
unfolding supervise_replica
supervise_replicas o spec now [] s = (s, [])
supervise_replicas o spec now (r ∷ rs) s =
    let (t, first) = supervise_replica o spec now r s in
    let (u, rest) = supervise_replicas o spec now rs t in (u, first ++ rest)

abbrev is_present : Found → Bool
is_present gone = false
is_present unasked = false
is_present _ = true

-- The indexes from 1 to `desired` that no container is known to have.
unfoldable pub missing_indexes : ℕ → List Replica → List ℕ
missing_indexes desired rs =
    keep (λ i. not (any (λ (r : Replica). r.index == i && is_present r.found) rs)) (one_to desired)

-- One pass over an application with containers: its replicas, then what is missing.
unfoldable pub supervise_app :
    Options → Spec → ℕ → ℕ → ℕ → List Replica → List ℕ → Bool → Supervisor → Supervisor × List Event
unfolding supervise_replicas missing_indexes recreate_replicas
supervise_app o spec desired now d rs created failed s =
    let (t, events) = supervise_replicas o spec now rs s in
    let missing = missing_indexes desired rs in
    let (u, more) = recreate_replicas o spec now d (length missing) created failed t in
    if ltb 0 (length missing) then (u, events ++ more) else (t, events)
