-- ===== src/Scheduling/Tiles.antt =====
-- The windows that the scheduler looks at, one look after another.
use shipwick.Base.{
  ℕ, ◌+◌, ◌<◌, ◌≡◌, ◌∙◌, ap, refl, inl, inr, Bool, true, false, not, ◌&&◌, Option, none, some, List,
  [], ◌∷◌, ltb, leb, ◌==◌, if◌then◌else◌, any, keep, arith, Bool-cases, Option-cases, both_branches,
  find_row,
}
use shipwick.Locks.{Engine, try_lock, Attempt, took, waits, busy, shutting_down, idle}
use shipwick.Scheduling.{
  Job, App, Seen, Agent, known, last_or, window, see, is_due, claim_exclusive, begin_op, start_with,
  start_claimed, start_job, with_lock, schedule_app, schedule_held, taken_window, look_through,
  look_at, forget_deleted,
}

-- A window of an application: the minutes after `last` up to `upto`.
pub record Window : Type 0 where
  pub app : ℕ
  pub last : ℕ
  pub upto : ℕ

-- The agent, and the windows that it has taken, newest first.
pub record World : Type 0 where
  pub agent : Agent
  pub windows : List Window

-- The windows after a look.
abbrev pub noted : App → ℕ → Option (ℕ × Engine) → List Window → List Window
noted a minute none ws = ws
noted a minute (some (last, e)) ws = record { app = a.name; last = last; upto = minute } ∷ ws

-- A look, the forgetting of applications that are gone, and anything that leaves the scheduler's
-- memory alone.
pub data Step (w : World) : World → Type 0 where
  looks :
      (launches : ℕ → Bool) (jobs : ℕ → Option (List Job)) (minute : ℕ) (a : App)
      → Step w (record {
        agent = look_at launches jobs minute a w.agent;
        windows = noted a minute (taken_window a minute w.agent) w.windows;
      })
  forgets :
      (apps : List App)
      → Step w (record {
        agent = forget_deleted apps w.agent;
        windows = keep (λ (v : Window). any (λ (a : App). a.name == v.app) apps) w.windows;
      })
  elsewhere : (s : Agent) → s.last_tick ≡ w.agent.last_tick → Step w (record w { agent = s })

pub data Reach : World → Type 0 where
  fresh : Reach (record {
    agent = record { engine = idle; claims = []; last_tick = []; background = [] };
    windows = [];
  })
  next : {w v : World} → Reach w → Step w v → Reach v

-- How often a minute was looked at for an application.
abbrev pub times : ℕ → ℕ → List Window → ℕ
times app u [] = 0
times app u (w ∷ ws) =
    if w.app == app && (ltb w.last u && leb u w.upto) then times app u ws + 1 else times app u ws

-- Where the first window of an application begins, `d` if there is none.
abbrev pub begun : ℕ → ℕ → List Window → ℕ
begun app d [] = d
begun app d (w ∷ ws) = begun app (if w.app == app then w.last else d) ws

-- From the beginning of the first window to the last look, each minute is in one window.
abbrev pub IsTiled : ℕ → Option ℕ → List Window → Type 0
IsTiled app none ws = (u d : ℕ) → (times app u ws ≡ 0) × (begun app d ws ≡ d)
IsTiled app (some last) ws =
    (d : ℕ)
    → (begun app d ws < last)
      × ((u : ℕ) → times app u ws ≡ (if ltb (begun app d ws) u && leb u last then 1 else 0))

abbrev pub AreTiled : World → Type 0
AreTiled w = (app : ℕ) → IsTiled app (known app w.agent.last_tick) w.windows

pub known-see :
    (app a minute : ℕ) (seen : List Seen)
    → known app (see a minute seen) ≡ (if a == app then some minute else known app seen)
unfolding see find_row
known-see app a minute seen = ground (arith, kept seen)
  where
    kept :
        (rest : List Seen)
        → (a == app) ≡ false
        → known app (keep (λ (l : Seen). not (l.app == a)) rest) ≡ known app rest
    kept [] other = refl
    kept (l ∷ ls) other = ground (arith, kept ls other)

start_job-last_tick :
    (launches : Bool) (app job : ℕ) (s : Agent)
    → (start_job launches app job s).0.last_tick ≡ s.last_tick
unfolding start_job start_with start_claimed
start_job-last_tick launches app job s = elim (Option-cases (claim_exclusive app job s.claims)) [
  | inl claimed ↦ simp claimed refl
  | inr (cs, free) ↦ elim (Option-cases (begin_op s.engine)) [
    | inl closed ↦ simp (free, closed) refl
    | inr (e, opened) ↦ elim (Bool-cases launches) [
      | inl well ↦ simp (free, opened, well) refl
      | inr ill ↦ simp (free, opened, ill) refl
    ]
  ]
]

schedule_app-last_tick :
    (launches : ℕ → Bool) (app last minute : ℕ) (js : List Job) (s : Agent)
    → (schedule_app launches app last minute js s).last_tick ≡ s.last_tick
unfolding schedule_app
schedule_app-last_tick launches app last minute [] s = refl
schedule_app-last_tick launches app last minute (j ∷ js) s =
    schedule_app-last_tick launches app last minute js
      (if is_due last minute j.schedule then (start_job (launches j.name) app j.name s).0 else s)
    ∙ both_branches (λ t. t.last_tick ≡ s.last_tick) (is_due last minute j.schedule)
        (start_job (launches j.name) app j.name s).0 s
        (λ due. start_job-last_tick (launches j.name) app j.name s) (λ quiet. refl)

abbrev pub seen_by : App → ℕ → Option (ℕ × Engine) → List Seen → List Seen
seen_by a minute none seen = seen
seen_by a minute (some w) seen = see a.name minute seen

schedule_held-last_tick :
    (launches : ℕ → Bool) (a : App) (last minute : ℕ) (js : Option (List Job)) (s : Agent)
    → (schedule_held launches a last minute js s).last_tick ≡ see a.name minute s.last_tick
unfolding schedule_held
schedule_held-last_tick launches a last minute none s = refl
schedule_held-last_tick launches a last minute (some js) s =
    ap (see a.name minute) (schedule_app-last_tick launches a.name last minute js s)

pub look_through-last_tick :
    (launches : ℕ → Bool) (jobs : ℕ → Option (List Job)) (minute : ℕ) (a : App)
    (w : Option (ℕ × Engine)) (s : Agent)
    → (look_through launches jobs minute a w s).last_tick ≡ seen_by a minute w s.last_tick
unfolding look_through
look_through-last_tick launches jobs minute a none s = refl
look_through-last_tick launches jobs minute a (some (last, e)) s =
    schedule_held-last_tick launches a last minute (jobs a.name) (record s { engine = e })

with_lock-last :
    (o : Option ℕ) (t : Attempt) (last : ℕ) (e : Engine)
    → with_lock o t ≡ some (last, e)
    → o ≡ some last
unfolding with_lock
with_lock-last none t last e h = cc
with_lock-last (some l) (took e') last e h = ap (λ x. some x) (ground (arith, h))
with_lock-last (some l) waits last e h = cc
with_lock-last (some l) busy last e h = cc
with_lock-last (some l) shutting_down last e h = cc

window-last :
    (a : App) (minute last : ℕ) (seen : List Seen)
    → window a minute seen ≡ some last
    → (last ≡ last_or minute (known a.name seen)) × (last < minute)
unfolding window
window-last a minute last seen h = ground (arith, h)

pub taken_window-last :
    (a : App) (minute : ℕ) (s : Agent) (last : ℕ) (e : Engine)
    → taken_window a minute s ≡ some (last, e)
    → (last ≡ last_or minute (known a.name s.last_tick)) × (last < minute)
unfolding taken_window
taken_window-last a minute s last e h =
    window-last a minute last s.last_tick
      (with_lock-last (window a minute s.last_tick) (try_lock a.name true s.engine) last e h)

abbrev one_within : ℕ → ℕ → ℕ → ℕ
one_within b m u = if ltb b u && leb u m then 1 else 0

pub within_first :
    (b m u t : ℕ) → t ≡ 0 → (if ltb b u && leb u m then t + 1 else t) ≡ one_within b m u
within_first b m u t h = ground (arith, h)

pub within_next :
    (b l m u t : ℕ)
    → b < l
    → l < m
    → t ≡ one_within b l u
    → (if ltb l u && leb u m then t + 1 else t) ≡ one_within b m u
within_next b l m u t lt lt' h = ground (arith, lt, lt', h)
