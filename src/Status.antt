-- ===== src/Status.antt =====
-- The deployment state machine: agent/internal/deploy/state.go, the statuses of pkg/api/types.go and
-- the order of progress of agent/internal/deploy/rollout.go.
pub mod Machine
pub mod Traces
use shipwick.Base.{ℕ, Bool, true, false, not, List, [], ◌∷◌, ◌==◌, any, keep}

pub data DeploymentStatus : Type 0 where
  pending building starting health_checking healthy active : DeploymentStatus
  superseded failed rollback restoring rolled_back : DeploymentStatus

-- The statuses are distinct strings in the source; a number stands for each.
abbrev pub rank : DeploymentStatus → ℕ
rank pending = 0
rank building = 1
rank starting = 2
rank health_checking = 3
rank healthy = 4
rank active = 5
rank superseded = 6
rank failed = 7
rank rollback = 8
rank restoring = 9
rank rolled_back = 10

abbrev pub same_status : DeploymentStatus → DeploymentStatus → Bool
same_status a b = rank a == rank b

unfoldable pub transitions : DeploymentStatus → List DeploymentStatus
transitions pending = building ∷ failed ∷ []
transitions building = starting ∷ failed ∷ []
transitions starting = health_checking ∷ failed ∷ []
transitions health_checking = healthy ∷ failed ∷ []
transitions healthy = active ∷ failed ∷ []
transitions active = superseded ∷ []
transitions failed = rollback ∷ []
transitions rollback = restoring ∷ failed ∷ []
transitions restoring = rolled_back ∷ failed ∷ []
transitions superseded = []
transitions rolled_back = []

unfoldable pub can_transition : DeploymentStatus → DeploymentStatus → Bool
unfolding transitions
can_transition from to = any (λ next. same_status next to) (transitions from)

unfoldable pub is_settled : DeploymentStatus → Bool
is_settled active = true
is_settled superseded = true
is_settled failed = true
is_settled rolled_back = true
is_settled _ = false

-- The keys of the table of transitions; the source walks a map, whose order is not fixed.
abbrev all_statuses : List DeploymentStatus
all_statuses =
    pending ∷ building ∷ starting ∷ health_checking ∷ healthy ∷ active ∷ failed ∷ rollback
    ∷ restoring ∷ superseded ∷ rolled_back ∷ []

unfoldable pub in_flight_statuses : List DeploymentStatus
unfolding is_settled
in_flight_statuses = keep (λ s. not (is_settled s)) all_statuses

-- A key that the map does not hold reads as 0.
unfoldable pub progress : DeploymentStatus → ℕ
progress pending = 0
progress building = 1
progress starting = 2
progress health_checking = 3
progress healthy = 4
progress failed = 5
progress rollback = 6
progress restoring = 7
progress _ = 0
