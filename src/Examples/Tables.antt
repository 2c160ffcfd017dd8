-- ===== src/Examples/Tables.antt =====
-- An application with a deployment that serves and one that is about to.
use shipwick.Base.{ℕ, ◌≡◌, ◌↔◌, refl, true, none, some, [], ◌∷◌, find_row, update_rows, OnOk}
use shipwick.Status.{
  DeploymentStatus, pending, building, starting, health_checking, healthy, active, can_transition,
}
use shipwick.Records.{
  Application, Deployment, Store, running, find, insert_deployment, transition_deployment,
  activate_deployment,
}
use shipwick.Records.Consistency.{active_of, active_owner}
use shipwick.Records.Activation.{activate-active}
use shipwick.Records.Histories.{
  Reach, start, next, inserts, transitions, activates, one_active, Reach-IsConsistent,
}

abbrev row : ℕ → ℕ → DeploymentStatus → Deployment
row id sequence status = record {
  id = id;
  application_id = 7;
  sequence = sequence;
  version = "v";
  status = status;
  error = "";
  started_at = 5;
  completed_at = none;
}

abbrev shop : ℕ → Application
shop now = record {
  id = 7;
  name = "shop";
  desired_state = running;
  active_deployment_id = none;
  created_at = 5;
  updated_at = now;
}

abbrev one_row : DeploymentStatus → Store
one_row status = record { applications = shop 5 ∷ []; deployments = row 1 1 status ∷ [] }

abbrev serving : Store
serving = record {
  applications = record (shop 9) { active_deployment_id = some 1 } ∷ [];
  deployments = row 1 1 active ∷ [];
}

Reach-healthy : Reach (one_row healthy)
unfolding can_transition insert_deployment transition_deployment find_row update_rows
Reach-healthy =
    next
      (next
        (next
          (next (next start (inserts true "shop" "v" 1 7 5 (row 1 1 pending) refl refl refl)) (
            transitions true 1 pending building "" refl (λ e. absurd (cc)) (λ e. absurd (cc)) refl))
          (transitions true 1 building starting "" refl (λ e. absurd (cc)) (λ e. absurd (cc)) refl))
        (transitions true 1 starting health_checking "" refl (λ e. absurd (cc)) (λ e. absurd (cc))
          refl))
      (transitions true 1 health_checking healthy "" refl (λ e. absurd (cc)) (λ e. absurd (cc))
        refl)

Reach-serving : Reach serving
unfolding activate_deployment find_row update_rows
Reach-serving = next Reach-healthy (activates true 1 9 none refl)

one_active_example :
    ((active_of 7 serving ≡ some 1) ↔ (active_owner 1 serving ≡ some 7))
    × (active_owner 1 serving ≡ some 7 → active_owner 2 serving ≡ some 7 → ◌≡◌ {A = ℕ} 1 2)
one_active_example = one_active Reach-serving 7 1 2

activate-active_example :
    OnOk
      (λ r.
        (d : Deployment) × (find 1 (one_row healthy).deployments ≡ some d)
        × (d.status ≡ healthy)
        × (active_of d.application_id r.0 ≡ some 1)
        × (active_owner 1 r.0 ≡ some d.application_id))
      (activate_deployment true 1 9 (one_row healthy))
activate-active_example =
    activate-active true 1 9 (one_row healthy) (Reach-IsConsistent Reach-healthy)
