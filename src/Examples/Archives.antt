-- ===== src/Examples/Archives.antt =====
-- Uploads of a few bytes, and a few backups to keep.
use shipwick.Base.{ℕ, ◌≡◌, refl, true, false, List, [], ◌∷◌, ◌==◌, if◌then◌else◌, arith}
use shipwick.Uploads.{Outcome, completed, part_size_for, send_part, send_parts, upload}
use shipwick.Uploads.{Tried, took, retries}
use shipwick.Uploads.Whole.{IsWhole, TakenWithin, is_stored, upload-IsWhole, upload_stores}
use shipwick.Retention.{BackupRun, Kept, running, succeeded, failed, is_failed, prune_backups}
use shipwick.Retention.Limits.{has_run, has_files}
use shipwick.Retention.Removals.{prune_backups-keeps, prune_backups-removes}
use shipwick.Uploads
use shipwick.Retention

-- Every part is taken at the second attempt.
abbrev second_time : ℕ → ℕ → Tried
second_time number attempt = if attempt == 1 then retries else took

abbrev bucket : Uploads.Answers
bucket = record {
  puts = true;
  creates = true;
  notes = true;
  tries = second_time;
  completes = true;
  aborts = true;
}

abbrev archive : List ℕ
archive = 1 ∷ 2 ∷ 3 ∷ 4 ∷ 5 ∷ []

in_parts :
    upload bucket archive 2
    ≡ completed (
        record { number = 1; body = 1 ∷ 2 ∷ [] }
        ∷ record { number = 2; body = 3 ∷ 4 ∷ [] }
        ∷ record { number = 3; body = 5 ∷ [] }
        ∷ [])
unfolding upload send_parts send_part part_size_for
in_parts = refl

upload-IsWhole_example : IsWhole archive 2 (upload bucket archive 2)
upload-IsWhole_example = upload-IsWhole bucket archive 2 (omega arith)

taken : (number : ℕ) → TakenWithin bucket number 1 3
taken number = (1, omega arith, λ k lt. ground (arith, lt), refl)

upload_stores_example : is_stored (upload bucket archive 2) ≡ true
upload_stores_example =
    upload_stores bucket archive 2 (omega arith) (omega arith) refl refl refl refl taken

abbrev run : ℕ → Retention.RunStatus → BackupRun
run id status = record { id = id; status = status; busy = false }

abbrev backups : Kept
backups = record {
  runs = run 5 running ∷ run 4 succeeded ∷ run 3 failed ∷ run 2 succeeded ∷ run 1 succeeded ∷ [];
  files = 4 ∷ 2 ∷ 1 ∷ [];
}

abbrev all_goes : Retention.Answers
all_goes = record { removes = λ id. true; deletes = λ id. true }

abbrev stuck : Retention.Answers
stuck = record { removes = λ id. true; deletes = λ id. false }

prune_backups-keeps_example :
    (has_run 2 (prune_backups all_goes 2 backups) ≡ true)
    × (has_files 2 (prune_backups all_goes 2 backups) ≡ true)
prune_backups-keeps_example =
    prune_backups-keeps all_goes 2 backups (run 5 running ∷ run 4 succeeded ∷ run 3 failed ∷ [])
      (run 2 succeeded) (run 1 succeeded ∷ []) refl refl refl refl

prune_backups-removes_example :
    (has_run 2 (prune_backups all_goes 1 backups) ≡ false)
    × (has_files 2 (prune_backups all_goes 1 backups) ≡ false)
prune_backups-removes_example =
    prune_backups-removes all_goes 1 backups (run 5 running ∷ run 4 succeeded ∷ run 3 failed ∷ [])
      (run 2 succeeded) (run 1 succeeded ∷ []) refl refl refl refl refl refl
