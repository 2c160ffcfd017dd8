-- ===== src/Outage.antt =====
-- A Docker daemon that does not answer: agent/internal/deploy/outage.go. Times are numbers of
-- nanoseconds; the words of the alert and the log are left out.
pub mod Standing
use shipwick.Base.{
  ℕ, ◌+◌, ◌-◌, ◌*◌, ◌/◌, max, Bool, true, false, Option, none, some, List, leb, if◌then◌else◌,
}
use shipwick.Alerts.{AlertKey, Alert, Told, nothing, critical, raise_alert, clear_alert}

-- The tick that first went unanswered: the time that it carried, and when it asked on the wall clock.
pub record Silence : Type 0 where
  pub since : ℕ
  pub asked : ℕ

abbrev pub second : ℕ
second = 1_000_000_000

abbrev pub docker_alert_after : ℕ
docker_alert_after = 30 * second

-- To the nearest second.
abbrev pub rounded : ℕ → ℕ
rounded d = (d + second / 2) / second * second

unfoldable pub lasted : Silence → ℕ → ℕ → ℕ
lasted o now wall = rounded (max (now - o.since) (wall - o.asked))

-- Kind 1 is Docker's here.
abbrev pub docker_key : AlertKey
docker_key = record { kind = 1; application = 0; replica = 0 }

-- What a tick leaves: the memory of the outage, the alerts, what is told, and whether it goes on.
pub record Tick : Type 0 where
  pub outage : Option Silence
  pub book : List Alert
  pub told : Told
  pub goes_on : Bool

abbrev pub answered : Option Silence → ℕ → List Alert → Tick
answered none now book = record { outage = none; book = book; told = nothing; goes_on = true }
answered (some o) now book =
    let r = clear_alert docker_key false book in
    record { outage = none; book = r.0; told = r.1; goes_on = true }

-- The outage that goes on, or begins.
abbrev pub began : Option Silence → ℕ → ℕ → Silence
began none now asked = record { since = now; asked = asked }
began (some o) now asked = o

abbrev pub unanswered : Silence → ℕ → ℕ → List Alert → Tick
unanswered o now wall book =
    let r = raise_alert docker_key critical now book in
    if leb docker_alert_after (lasted o now wall)
    then record { outage = some o; book = r.0; told = r.1; goes_on = false }
    else record { outage = some o; book = book; told = nothing; goes_on = false }

-- `ended`: the agent is shutting down; `fails`: Docker did not answer the question asked at `asked`,
-- which it is `wall` when that is known.
unfoldable pub docker_answers : Bool → Bool → ℕ → ℕ → ℕ → Option Silence → List Alert → Tick
docker_answers ended fails now asked wall outage book =
    if ended
    then record { outage = outage; book = book; told = nothing; goes_on = false }
    else if fails
    then unanswered (began outage now asked) now wall book
    else answered outage now book
