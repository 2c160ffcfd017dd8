-- ===== src/Examples/Runs.antt =====
-- One backup: taken, verified, and claimed again.
use shipwick.Base.{◌≡◌, refl, true, false, [], ◌∷◌, find_row, update_rows, some}
use shipwick.Retention.{succeeded, Answers, BackupRun as Kept_run, Kept, prune, claim_run}
use shipwick.Retention.Limits.{has_run, has_files}
use shipwick.Retention.Races.{in_use, prune-claim_run}
use shipwick.BackupRuns.{
  Run, Table, new_run, verify, idle, create_backup_run, finish_backup_run, claim_backup_run,
  finish_backup_verify,
}
use shipwick.BackupRuns.Claimed.{Reach-IsClaimed}
use shipwick.BackupRuns.Works.{
  World, Reach, fresh, next, creates, ends, claims, verified, IsClaimed,
}
use shipwick.BackupRuns.Outcomes.{Steps, none_yet, then_one, outcome, outcome-lasts}

abbrev begun_run : Run
begun_run = new_run 1 7 0 10

abbrev ended_run : Run
ended_run = record begun_run { status = succeeded; volumes = 5 ∷ []; completed_at = some 20 }

abbrev claimed_run : Run
claimed_run = record ended_run { activity = verify }

abbrev verified_run : Run
verified_run = record claimed_run { activity = idle; verified_at = some 30 }

abbrev with_run : Run → Table
with_run r = record { rows = r ∷ []; sequence = 1 }

Reach-ended_run : Reach (record { table = with_run ended_run; works = [] })
unfolding create_backup_run finish_backup_run update_rows
Reach-ended_run = next (next fresh (creates 7 0 10 _ _ refl)) (ends ended_run 20 _ refl)

abbrev verifying : World
verifying = record {
  table = with_run claimed_run;
  works = record { run = 1; activity = verify } ∷ [];
}

Reach-verifying : Reach verifying
unfolding claim_backup_run update_rows
Reach-verifying = next Reach-ended_run (claims 1 verify _ refl refl)

Reach-IsClaimed_example : IsClaimed verifying
Reach-IsClaimed_example = Reach-IsClaimed Reach-verifying

steps :
    Steps
      (record { table = with_run ended_run; works = [] })
      (record { table = with_run verified_run; works = [] })
unfolding claim_backup_run finish_backup_verify update_rows
steps =
    then_one (then_one none_yet (claims 1 verify (with_run claimed_run) refl refl))
      (verified [] [] 1 "" "" 30 (with_run verified_run) refl refl)

outcome-lasts_example : outcome verified_run ≡ outcome ended_run
unfolding find_row
outcome-lasts_example = outcome-lasts 1 ended_run verified_run Reach-ended_run refl refl steps refl

abbrev answers : Answers
answers = record { removes = λ id. true; deletes = λ id. true }

abbrev old_run : Kept_run
old_run = record { id = 1; status = succeeded; busy = false }

abbrev new_one : Kept_run
new_one = record { id = 2; status = succeeded; busy = false }

abbrev kept_runs : Kept
kept_runs = record { runs = new_one ∷ old_run ∷ []; files = 1 ∷ 2 ∷ [] }

-- Backup 1 is claimed after the list was read, and loses its files while it is verified.
abbrev claimed_runs : Kept
claimed_runs = record { runs = new_one ∷ record old_run { busy = true } ∷ []; files = 1 ∷ 2 ∷ [] }

took_one : claim_run 1 kept_runs ≡ some claimed_runs
unfolding claim_run update_rows
took_one = refl

prune-claim_run_example :
    (in_use 1 claimed_runs ≡ true)
    × (has_files 1 (prune answers 1 0 0 (new_one ∷ old_run ∷ []) claimed_runs) ≡ false)
    × (has_run 1 (prune answers 1 0 0 (new_one ∷ old_run ∷ []) claimed_runs) ≡ false)
prune-claim_run_example =
    prune-claim_run answers 1 (new_one ∷ []) old_run [] refl refl kept_runs claimed_runs took_one
      refl refl refl refl
