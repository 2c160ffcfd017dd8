-- ===== src/Status/Machine.antt =====
-- What the table of transitions promises of single steps.
use shipwick.Base.{◌<◌, ◌≡◌, ◌⊎◌, true, not, arith, any}
use shipwick.Status.{
  DeploymentStatus, healthy, active, superseded, same_status, can_transition, is_settled,
  in_flight_statuses, progress,
}

pub same_status_eq : (a b : DeploymentStatus) → same_status a b ≡ true → a ≡ b
same_status_eq a b h = ground arith

-- A status counts as in flight exactly when it is not an outcome.
pub in_flight-is_settled :
    (s : DeploymentStatus) → any (same_status s) in_flight_statuses ≡ not (is_settled s)
unfolding in_flight_statuses is_settled
in_flight-is_settled s = ground arith

-- A legal step either ends the work or goes strictly further in the order that `reach` compares by.
pub can_transition-progress :
    (from to : DeploymentStatus)
    → can_transition from to ≡ true
    → (is_settled to ≡ true) ⊎ (progress from < progress to)
unfolding can_transition is_settled progress
can_transition-progress from to h = ground arith

-- ACTIVE is entered only from HEALTHY, and left only for SUPERSEDED.
pub active_neighbours :
    (s : DeploymentStatus)
    → (can_transition s active ≡ true → s ≡ healthy)
      × (can_transition active s ≡ true → s ≡ superseded)
unfolding can_transition
active_neighbours s = (λ h. ground arith, λ h. ground arith)
