-- ===== src/Scheduling/Single.antt =====
-- Runs of jobs that begin and end in any order.
use shipwick.Base.{
  ℕ, ◌+◌, ◌≤◌, ◌≡◌, ◌≢◌, ◌∙◌, ap, subst, sym, refl, inl, inr, Bool, true, false, ◌&&◌, ◌||◌, Option,
  none, some, List, [], ◌∷◌, ◌++◌, ◌==◌, if◌then◌else◌, arith, ==_iff, &&_true, Bool-cases,
  both_branches,
}
use shipwick.Locks.{Engine, idle}
use shipwick.Scheduling.{
  Job, App, Claim, JobRun, Agent, command_job, claimed, claim_job, claim_exclusive, release_claim,
  release_exclusive, begin_op, start_claimed, start_with, start_job, collect, is_due, schedule_app,
  schedule_held, taken_window, look_through, look_at, forget_deleted, look_at_all, schedule_jobs,
}

-- What may happen: the scheduler looks at an application or forgets those that are gone, someone
-- starts a job by hand, a run is over, or the engine's locks, count and flag change.
pub data Step (s : Agent) : Agent → Type 0 where
  looks :
      (launches : ℕ → Bool) (jobs : ℕ → Option (List Job)) (minute : ℕ) (a : App)
      → Step s (look_at launches jobs minute a s)
  forgets : (apps : List App) → Step s (forget_deleted apps s)
  starts : (launches : Bool) (app job : ℕ) → Step s (start_job launches app job s).0
  ends :
      (before after : List JobRun) (r : JobRun)
      → s.background ≡ before ++ r ∷ after
      → Step s (record (collect r s) { background = before ++ after })
  elsewhere : (e : Engine) → Step s (record s { engine = e })

pub data Reach : Agent → Type 0 where
  fresh : Reach (record { engine = idle; claims = []; last_tick = []; background = [] })
  next : {s t : Agent} → Reach s → Step s t → Reach t

abbrev pub is_run : ℕ → ℕ → JobRun → Bool
is_run app job r = r.app == app && r.job == job

abbrev pub runs : ℕ → ℕ → List JobRun → ℕ
runs app job [] = 0
runs app job (r ∷ rs) = if is_run app job r then runs app job rs + 1 else runs app job rs

abbrev pub one_if : Bool → ℕ
one_if true = 1
one_if false = 0

-- The runs of a job that go on: one while it is claimed.
abbrev pub IsSingle : Agent → Type 0
IsSingle s =
    (app job : ℕ)
    → job ≢ command_job
    → runs app job s.background ≡ one_if (claimed app job s.claims)

runs-append :
    (app job : ℕ) (xs ys : List JobRun)
    → runs app job (xs ++ ys) ≡ runs app job xs + runs app job ys
runs-append app job [] ys = omega arith
runs-append app job (x ∷ xs) ys = ground (arith, runs-append app job xs ys)

claimed-release_same :
    (app job : ℕ) (claims : List Claim) → claimed app job (release_claim app job claims) ≡ false
unfolding release_claim
claimed-release_same app job [] = refl
claimed-release_same app job (c ∷ cs) = ground (arith, claimed-release_same app job cs)

claimed-release_other :
    (app job app' job' : ℕ) (claims : List Claim)
    → (app == app' && job == job') ≡ false
    → claimed app' job' (release_claim app job claims) ≡ claimed app' job' claims
unfolding release_claim
claimed-release_other app job app' job' [] differ = refl
claimed-release_other app job app' job' (c ∷ cs) differ =
    ground (arith, claimed-release_other app job app' job' cs, differ)

-- A change of the rest of the agent.
same-IsSingle :
    (s t : Agent) → t.claims ≡ s.claims → t.background ≡ s.background → IsSingle s → IsSingle t
same-IsSingle s t claims background h app job named = simp (claims, background) (h app job named)

claimed_after :
    (app job app' job' : ℕ) (claims : List Claim)
    → claimed app' job' (record { app = app; job = job } ∷ claims)
      ≡ ((app == app' && job == job') || claimed app' job' claims)
claimed_after app job app' job' claims = refl

-- A claim that is given up at once leaves the claims as they were.
pub claim_job-release :
    (app job app' job' : ℕ) (claims : List Claim)
    → claimed app job claims ≡ false
    → claimed app' job' (release_claim app job (record { app = app; job = job } ∷ claims))
      ≡ claimed app' job' claims
claim_job-release app job app' job' claims free = elim (Bool-cases (app == app' && job == job')) [
  | inl is ↦
      let (a, j) = &&_true (app == app') (job == job') is in
      let ea = (==_iff app app').0 a in
      let ej = (==_iff job job').0 j in
      subst
        (λ v.
          claimed v job' (release_claim app job (record { app = app; job = job } ∷ claims))
          ≡ claimed v job' claims)
        ea
        (subst
          (λ v.
            claimed app v (release_claim app job (record { app = app; job = job } ∷ claims))
            ≡ claimed app v claims)
          ej (claimed-release_same app job (record { app = app; job = job } ∷ claims) ∙ sym free))
  | inr differ ↦
      claimed-release_other app job app' job' (record { app = app; job = job } ∷ claims) differ
      ∙ claimed_after app job app' job' claims
      ∙ ap (λ b. b || claimed app' job' claims) differ
]

other_run :
    (app job app' job' : ℕ) (rs : List JobRun)
    → job ≡ command_job
    → job' ≢ command_job
    → runs app' job' (record { app = app; job = job } ∷ rs) ≡ runs app' job' rs
other_run app job app' job' rs run named = ground (arith, run, named, runs app' job' rs)

added_run :
    (app job app' job' : ℕ) (rs : List JobRun) (claims : List Claim)
    → claimed app job claims ≡ false
    → runs app' job' rs ≡ one_if (claimed app' job' claims)
    → runs app' job' (record { app = app; job = job } ∷ rs)
      ≡ one_if (claimed app' job' (record { app = app; job = job } ∷ claims))
added_run app job app' job' rs claims free h = elim (Bool-cases (app == app' && job == job')) [
  | inl is ↦
      let (a, j) = &&_true (app == app') (job == job') is in
      let ea = (==_iff app app').0 a in
      let ej = (==_iff job job').0 j in
      let none' : claimed app' job' claims ≡ false =
        subst (λ v. claimed v job' claims ≡ false) ea
          (subst (λ v. claimed app v claims ≡ false) ej free) in
      simp (is, h, none') refl
  | inr differ ↦ simp (differ, h) refl
]

start_job-IsSingle :
    (launches : Bool) (app job : ℕ) (s : Agent)
    → IsSingle s
    → IsSingle (start_job launches app job s).0
unfolding start_job start_with claim_exclusive claim_job start_claimed begin_op release_exclusive
start_job-IsSingle launches app job s h app' job' named = elim (Bool-cases (job == command_job)) [
  | inl run ↦ elim (Bool-cases s.engine.closed) [
    | inl shut ↦ simp (run, shut) (h app' job' named)
    | inr opened ↦ elim (Bool-cases launches) [
      | inl well ↦
          simp (run, opened, well)
            (other_run app job app' job' s.background ((==_iff job command_job).0 run) named
              ∙ h app' job' named)
      | inr ill ↦ simp (run, opened, ill) (h app' job' named)
    ]
  ]
  | inr exclusive ↦ elim (Bool-cases (claimed app job s.claims)) [
    | inl busy ↦ simp (exclusive, busy) (h app' job' named)
    | inr free ↦ elim (Bool-cases s.engine.closed) [
      | inl shut ↦
          simp (exclusive, free, shut)
            (h app' job' named
              ∙ ap one_if (sym (claim_job-release app job app' job' s.claims free)))
      | inr opened ↦ elim (Bool-cases launches) [
        | inl well ↦
            simp (exclusive, free, opened, well)
              (added_run app job app' job' s.background s.claims free (h app' job' named))
        | inr ill ↦
            simp (exclusive, free, opened, ill)
              (h app' job' named
                ∙ ap one_if (sym (claim_job-release app job app' job' s.claims free)))
      ]
    ]
  ]
]

-- The end of one of several runs.
ended_run :
    (app job app' job' : ℕ) (before after : List JobRun) (claims : List Claim)
    → runs app' job' (before ++ record { app = app; job = job } ∷ after)
      ≡ one_if (claimed app' job' claims)
    → runs app' job' (before ++ after) ≡ one_if (claimed app' job' (release_claim app job claims))
ended_run app job app' job' before after claims h = elim (Bool-cases (app == app' && job == job')) [
  | inl is ↦
      let (a, j) = &&_true (app == app') (job == job') is in
      let ea = (==_iff app app').0 a in
      let ej = (==_iff job job').0 j in
      let over : claimed app' job' (release_claim app job claims) ≡ false =
        subst (λ v. claimed v job' (release_claim app job claims) ≡ false) ea
          (subst (λ v. claimed app v (release_claim app job claims) ≡ false) ej
            (claimed-release_same app job claims)) in
      let one : runs app' job' (record { app = app; job = job } ∷ after)
          ≡ runs app' job' after + 1 =
        simp is refl in
      simp over (
        omega (
          arith,
          runs-append app' job' before after,
          runs-append app' job' before (record { app = app; job = job } ∷ after),
          one,
          h,
          one_if_le (claimed app' job' claims),
        ))
  | inr differ ↦
      let same : runs app' job' (record { app = app; job = job } ∷ after) ≡ runs app' job' after =
        simp differ refl in
      simp (claimed-release_other app job app' job' claims differ) (
        omega (
          arith,
          runs-append app' job' before after,
          runs-append app' job' before (record { app = app; job = job } ∷ after),
          same,
          h,
        ))
]
  where
    one_if_le : (b : Bool) → one_if b ≤ 1
    one_if_le b = ground arith

ended_command :
    (r : JobRun) (app' job' : ℕ) (before after : List JobRun) (claims : List Claim)
    → r.job ≡ command_job
    → job' ≢ command_job
    → runs app' job' (before ++ r ∷ after) ≡ one_if (claimed app' job' claims)
    → runs app' job' (before ++ after) ≡ one_if (claimed app' job' claims)
ended_command r app' job' before after claims run named h = omega (
  arith,
  runs-append app' job' before after,
  runs-append app' job' before (r ∷ after),
  other_run r.app r.job app' job' after run named,
  h,
)

pub schedule_app-IsSingle :
    (launches : ℕ → Bool) (app last minute : ℕ) (js : List Job) (s : Agent)
    → IsSingle s
    → IsSingle (schedule_app launches app last minute js s)
unfolding schedule_app
schedule_app-IsSingle launches app last minute [] s h = h
schedule_app-IsSingle launches app last minute (j ∷ js) s h =
    schedule_app-IsSingle launches app last minute js
      (if is_due last minute j.schedule then (start_job (launches j.name) app j.name s).0 else s)
      (both_branches IsSingle (is_due last minute j.schedule)
        (start_job (launches j.name) app j.name s).0 s
        (λ due. start_job-IsSingle (launches j.name) app j.name s h) (λ quiet. h))

schedule_held-IsSingle :
    (launches : ℕ → Bool) (a : App) (last minute : ℕ) (js : Option (List Job)) (s : Agent)
    → IsSingle s
    → IsSingle (schedule_held launches a last minute js s)
unfolding schedule_held
schedule_held-IsSingle launches a last minute none s h = h
schedule_held-IsSingle launches a last minute (some js) s h =
    schedule_app-IsSingle launches a.name last minute js s h

look_through-IsSingle :
    (launches : ℕ → Bool) (jobs : ℕ → Option (List Job)) (minute : ℕ) (a : App)
    (w : Option (ℕ × Engine)) (s : Agent)
    → IsSingle s
    → IsSingle (look_through launches jobs minute a w s)
unfolding look_through
look_through-IsSingle launches jobs minute a none s h = h
look_through-IsSingle launches jobs minute a (some (last, e)) s h =
    schedule_held-IsSingle launches a last minute (jobs a.name) (record s { engine = e }) h

look_at-IsSingle :
    (launches : ℕ → Bool) (jobs : ℕ → Option (List Job)) (minute : ℕ) (a : App) (s : Agent)
    → IsSingle s
    → IsSingle (look_at launches jobs minute a s)
unfolding look_at
look_at-IsSingle launches jobs minute a s =
    look_through-IsSingle launches jobs minute a (taken_window a minute s) s

Step-IsSingle : {s t : Agent} → Step s t → IsSingle s → IsSingle t
unfolding collect release_exclusive forget_deleted
Step-IsSingle {s} (looks launches jobs minute a) h = look_at-IsSingle launches jobs minute a s h
Step-IsSingle (forgets apps) h = h
Step-IsSingle {s} (starts launches app job) h = start_job-IsSingle launches app job s h
Step-IsSingle {s} (ends before after r is) h = λ app' job' named.
    let now =
      subst (λ rs. runs app' job' rs ≡ one_if (claimed app' job' s.claims)) is
        (h app' job' named) in
    elim (Bool-cases (r.job == command_job)) [
      | inl run ↦ simp run (
          ended_command r app' job' before after s.claims ((==_iff r.job command_job).0 run) named
            now)
      | inr exclusive ↦ simp exclusive (ended_run r.app r.job app' job' before after s.claims now)
    ]
Step-IsSingle (elsewhere e) h = h

look_at_all-Reach :
    (launches : ℕ → Bool) (jobs : ℕ → Option (List Job)) (minute : ℕ) (apps : List App) (s : Agent)
    → Reach s
    → Reach (look_at_all launches jobs minute apps s)
unfolding look_at_all
look_at_all-Reach launches jobs minute [] s r = r
look_at_all-Reach launches jobs minute (a ∷ rest) s r =
    look_at_all-Reach launches jobs minute rest (look_at launches jobs minute a s)
      (next r (looks launches jobs minute a))

-- A whole tick is a sequence of steps.
schedule_jobs-Reach :
    (launches : ℕ → Bool) (jobs : ℕ → Option (List Job)) (minute : ℕ) (apps : List App) (s : Agent)
    → Reach s
    → Reach (schedule_jobs launches jobs minute apps s)
unfolding schedule_jobs
schedule_jobs-Reach launches jobs minute apps s r =
    next (look_at_all-Reach launches jobs minute apps s r) (forgets apps)

-- In whatever order jobs are scheduled, started by hand and end, and whatever else happens to the
-- engine: at any time one run of a job is in progress while the job is claimed, and none otherwise,
-- for every name but `run`, which commands share.
pub Reach-IsSingle : {s : Agent} → Reach s → IsSingle s
Reach-IsSingle fresh = λ app job named. refl
Reach-IsSingle (next r step) = Step-IsSingle step (Reach-IsSingle r)
