-- ===== src/Scheduling/Starts.antt =====
-- What a look at an application starts.
use shipwick.Base.{
  ℕ, ◌+◌, ◌*◌, ◌/◌, ◌%◌, ◌<◌, ◌≡◌, ◌≢◌, ◌∙◌, ap, subst, sym, refl, inl, inr, Bool, true, false, not,
  ◌&&◌, ◌||◌, Option, none, some, List, [], ◌∷◌, ◌==◌, any, arith, ==_iff, ==_refl, Bool-cases,
}
use shipwick.Cron.{Schedule, matches, next}
use shipwick.Cron.Calendar.{years_later}
use shipwick.Cron.Search.{IsFirst, next-IsFirst}
use shipwick.Locks.{op_done}
use shipwick.Scheduling.{
  Job, Claim, Agent, command_job, claimed, claim_job, claim_exclusive, release_exclusive, begin_op,
  start_claimed, start_with, start_job, not_after, is_due, schedule_app,
}
use shipwick.Scheduling.Single.{runs, one_if, IsSingle, claim_job-release, schedule_app-IsSingle}

-- A job of the name is due, and can be launched.
abbrev pub is_startable : (ℕ → Bool) → ℕ → ℕ → ℕ → List Job → Bool
is_startable launches last minute job js =
    any (λ j. launches j.name && (is_due last minute j.schedule && j.name == job)) js

eq_other : (job other : ℕ) → job ≡ command_job → other ≢ command_job → (job == other) ≡ false
eq_other job other run named = ground (arith, run, named)

claimed_again :
    (app job other : ℕ) (b : Bool) (claims : List Claim)
    → claimed app job claims ≡ true
    → claimed app other claims ≡ (claimed app other claims || (b && job == other))
claimed_again app job other b claims busy = elim (Bool-cases (job == other)) [
  | inr differ ↦ rw differ (ground arith)
  | inl is ↦
      let e : job ≡ other = (==_iff job other).0 is in
      let other_busy : claimed app other claims ≡ true =
        subst (λ j. claimed app j claims ≡ true) e busy in
      rw (other_busy) refl
]

claimed_new :
    (app job other : ℕ) (claims : List Claim)
    → claimed app other (record { app = app; job = job } ∷ claims)
      ≡ (claimed app other claims || job == other)
claimed_new app job other claims = ground (arith, claimed app other claims)

or_false : (b : Bool) → (b || false) ≡ b
or_false b = ground arith

-- What starting a job leaves claimed.
start_job-claimed :
    (launches : Bool) (app job other : ℕ) (s : Agent)
    → other ≢ command_job
    → (claimed app other ((start_job launches app job s).0.claims)
        ≡ (claimed app other s.claims || ((not s.engine.closed && launches) && job == other)))
      × ((start_job launches app job s).0.engine.closed ≡ s.engine.closed)
unfolding start_job start_with claim_exclusive claim_job start_claimed begin_op release_exclusive
    op_done
start_job-claimed launches app job other s named = elim (Bool-cases (job == command_job)) [
  | inl run ↦
      let differ = eq_other job other ((==_iff job command_job).0 run) named in
      elim (Bool-cases s.engine.closed) [
        | inl shut ↦ simp (run, shut) (sym (or_false (claimed app other s.claims)), refl)
        | inr opened ↦ elim (Bool-cases launches) [
          | inl well ↦
              simp (run, opened, well, differ) (sym (or_false (claimed app other s.claims)), refl)
          | inr ill ↦ simp (run, opened, ill) (sym (or_false (claimed app other s.claims)), refl)
        ]
      ]
  | inr exclusive ↦ elim (Bool-cases (claimed app job s.claims)) [
    | inl busy ↦
        simp (exclusive, busy)
          (claimed_again app job other (not s.engine.closed && launches) s.claims busy, refl)
    | inr free ↦
        let released =
          claim_job-release app job app other s.claims free
          ∙ sym (or_false (claimed app other s.claims)) in
        elim (Bool-cases s.engine.closed) [
          | inl shut ↦ simp (exclusive, free, shut) (released, refl)
          | inr opened ↦ elim (Bool-cases launches) [
            | inl well ↦
                simp (exclusive, free, opened, well) (claimed_new app job other s.claims, refl)
            | inr ill ↦ simp (exclusive, free, opened, ill) (released, refl)
          ]
        ]
  ]
]

look-claimed :
    (launches : ℕ → Bool) (app last minute job : ℕ) (js : List Job) (s : Agent)
    → job ≢ command_job
    → claimed app job ((schedule_app launches app last minute js s).claims) ≡ (
        claimed app job s.claims
        || (not s.engine.closed && is_startable launches last minute job js))
unfolding schedule_app
look-claimed launches app last minute job [] s named = ground arith
look-claimed launches app last minute job (j ∷ js) s named =
    let later = is_startable launches last minute job js in
    elim (Bool-cases (is_due last minute j.schedule)) [
      | inl due ↦
          let (same, open_still) = start_job-claimed (launches j.name) app j.name job s named in
          let rest =
            look-claimed launches app last minute job js
              (start_job (launches j.name) app j.name s).0 named in
          simp due (
            rest
            ∙ ap
                (λ c.
                  c || (not (start_job (launches j.name) app j.name s).0.engine.closed && later))
                same
            ∙ ap
                (λ b.
                  (claimed app job s.claims
                    || ((not s.engine.closed && launches j.name) && j.name == job))
                  || (not b && later))
                open_still
            ∙ regroup (claimed app job s.claims) (not s.engine.closed) (launches j.name)
                (j.name == job) later)
      | inr quiet ↦ simp quiet (
          look-claimed launches app last minute job js s named
          ∙ ap (λ b. claimed app job s.claims || (not s.engine.closed && (b || later)))
              (quiet_too (launches j.name)))
    ]
  where
    regroup :
        (a b c d e : Bool) → ((a || ((b && c) && d)) || (b && e)) ≡ (a || (b && ((c && d) || e)))
    regroup a b c d e = ground arith

    quiet_too : (b : Bool) → false ≡ (b && false)
    quiet_too b = ground arith

-- After a look at an application whose jobs each have one run exactly while they are claimed, a job
-- has one run in progress, and is claimed, exactly if it was claimed before, or the engine is open and
-- a job of its name is due and can be launched; and no run otherwise. This is of every name but
-- `run`.
pub schedule_app-claimed :
    (launches : ℕ → Bool) (app last minute job : ℕ) (js : List Job) (s : Agent)
    → IsSingle s
    → job ≢ command_job
    → let t = schedule_app launches app last minute js s in
      let goes_on =
        claimed app job s.claims
        || (not s.engine.closed && is_startable launches last minute job js) in
      (runs app job t.background ≡ one_if goes_on) × (claimed app job t.claims ≡ goes_on)
schedule_app-claimed launches app last minute job js s single named =
    let claims = look-claimed launches app last minute job js s named in
    (
      schedule_app-IsSingle launches app last minute js s single app job named ∙ ap one_if claims,
      claims,
    )

-- The schedule fires in no minute of the eight years after `last`.
abbrev pub IsSilent : Schedule → ℕ → Type 0
IsSilent s last =
    let t = last * 60 / 60 + 1 in
    (u : ℕ) → last < u → u < years_later 8 (t / 1440) * 1440 + t % 1440 → matches s u ≡ false

silent-none :
    (s : Schedule) (last limit : ℕ) (o : Option ℕ)
    → IsFirst s (last + 1) limit o
    → ((u : ℕ) → last < u → u < limit → matches s u ≡ false)
    → o ≡ none
silent-none s last limit none first silent = refl
silent-none s last limit (some r) (le, lt, hit, before) silent =
    absurd (cc (hit, silent r (omega (arith, le)) lt))

is_due-silent :
    (s : Schedule) (last minute : ℕ) → IsSilent s last → is_due last minute (some s) ≡ true
unfolding is_due not_after
is_due-silent s last minute silent =
    let t = last * 60 / 60 + 1 in
    let limit = years_later 8 (t / 1440) * 1440 + t % 1440 in
    let first =
      subst (λ v. IsFirst s v limit (next s (last * 60))) {y = last + 1} (omega arith)
        (next-IsFirst s (last * 60)) in
    rw (silent-none s last limit (next s (last * 60)) first silent) refl

-- A job whose schedule fires in no minute of the eight years after the last look is started at this
-- one all the same, whatever minute it is, if the engine is open and the job can be launched: one run
-- of it is in progress afterwards. Each job has one run exactly while it is claimed before, and the
-- name is not `run`.
pub schedule_app-silent :
    (launches : ℕ → Bool) (app last minute job : ℕ) (silent : Schedule) (js : List Job) (s : Agent)
    → IsSingle s
    → job ≢ command_job
    → s.engine.closed ≡ false
    → launches job ≡ true
    → IsSilent silent last
    → runs app job
        (schedule_app launches app last minute
          (record { name = job; schedule = some silent } ∷ js)
          s).background
      ≡ 1
schedule_app-silent launches app last minute job silent js s single named opened well quiet =
    let all : List Job = record { name = job; schedule = some silent } ∷ js in
    let startable : is_startable launches last minute job all ≡ true =
      simp (well, is_due-silent silent last minute quiet, ==_refl job) refl in
    let goes_on : (claimed app job s.claims
          || (not s.engine.closed && is_startable launches last minute job all))
        ≡ true =
      rw (opened, startable) (or_true (claimed app job s.claims)) in
    (schedule_app-claimed launches app last minute job all s single named).0 ∙ ap one_if goes_on
  where
    or_true : (b : Bool) → (b || (true && true)) ≡ true
    or_true b = ground arith
