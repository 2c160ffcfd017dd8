-- ===== src/Examples/Ends.antt =====
-- Deployments that fail while the database takes writes.
use shipwick.Base.{ℕ, ◌≡◌, refl, true, none, [], ◌∷◌, find_row, update_rows}
use shipwick.Status.{DeploymentStatus, starting, failed, can_transition, is_settled}
use shipwick.Records.{Deployment, Store, find, transition_deployment, complete_deployment}
use shipwick.Settle.{Unsettled, Answers, Pending, transition_with_error, write_end, retry_settling}
use shipwick.Settle.Ends.{ended, write_end-ended}
use shipwick.Settle.Retries.{AreEnded, retry_settling-none}

abbrev row : ℕ → DeploymentStatus → Deployment
row id status = record {
  id = id;
  application_id = 7;
  sequence = id;
  version = "v";
  status = status;
  error = "";
  started_at = 5;
  completed_at = none;
}

abbrev tables : Store
tables = record { applications = []; deployments = row 1 starting ∷ row 2 failed ∷ [] }

abbrev crash : Unsettled
crash = record { deployment = row 1 starting; failure = "boom" }

abbrev half : Unsettled
half = record { deployment = row 2 failed; failure = "" }

abbrev takes : Answers
takes = record { moves = true; reads = true; completes = true; now = 20 }

write_end-ended_example : ended (find 1 (write_end takes crash tables).store.deployments) ≡ true
unfolding write_end transition_with_error transition_deployment complete_deployment find_row
    update_rows can_transition is_settled
write_end-ended_example =
    write_end-ended takes crash tables (refl, (refl, tt)) (λ h. absurd (cc)) refl

abbrev two_ends : Pending
two_ends = record { store = tables; unsettled = crash ∷ half ∷ [] }

retry_settling-none_example :
    AreEnded (retry_settling (λ k. takes) [] two_ends).store two_ends.unsettled
    × ((retry_settling (λ k. takes) [] two_ends).unsettled ≡ [])
unfolding find_row
retry_settling-none_example =
    retry_settling-none (λ k. takes) [] two_ends (λ k. (refl, refl)) (refl, (refl, tt))
      (((λ e. absurd (cc)), tt), (tt, tt))
      ((row 1 starting, refl, refl), ((row 2 failed, refl, refl), tt))
