-- ===== src/Retention.antt =====
-- Which backups are kept: pruneBackups and removeBackup of agent/internal/deploy/backups.go. The
-- runs are those of one owner, the newest first, as the store lists them; the files are the ids of
-- the backups that have some. Whether the storage removes files and the store deletes a record is
-- an argument; a removal that fails leaves the files.
pub mod Limits
pub mod Removals
pub mod Races
use shipwick.Base.{
  ℕ, zero, suc, ◌+◌, Bool, true, false, not, ◌&&◌, ◌||◌, List, [], ◌∷◌, ltb, leb, ◌==◌,
  if◌then◌else◌, keep, update_rows, any, Option, none, some,
}

pub data RunStatus : Type 0 where
  running succeeded failed : RunStatus

-- `busy`: the backup is being verified or restored.
pub record BackupRun : Type 0 where
  pub id : ℕ
  pub status : RunStatus
  pub busy : Bool

pub record Kept : Type 0 where
  pub runs : List BackupRun
  pub files : List ℕ

pub record Answers : Type 0 where
  pub removes : ℕ → Bool
  pub deletes : ℕ → Bool

abbrev pub failures_kept : ℕ
failures_kept = 20

abbrev pub is_failed : RunStatus → Bool
is_failed failed = true
is_failed _ = false

abbrev pub is_succeeded : RunStatus → Bool
is_succeeded succeeded = true
is_succeeded _ = false

module _ (a : Answers) where
  unfoldable pub delete_run : ℕ → Kept → Kept
  delete_run id k =
      if a.deletes id
      then record k { runs = keep (λ (r : BackupRun). not (r.id == id)) k.runs }
      else k

  unfoldable pub remove_backup : BackupRun → Kept → Kept
  remove_backup run k =
      if is_failed run.status
      then delete_run run.id k
      else if a.removes run.id
      then delete_run run.id (record k { files = keep (λ (f : ℕ). not (f == run.id)) k.files })
      else k

  abbrev pub remove_unless_busy : BackupRun → Kept → Kept
  remove_unless_busy run k = if run.busy then k else remove_backup run k

  -- The switch over the status of a run, with the counters that include it.
  abbrev pub prune_run : ℕ → ℕ → ℕ → BackupRun → RunStatus → Kept → Kept
  prune_run limit good bad run running k = k
  prune_run limit good bad run succeeded k = if leb good limit then k else remove_unless_busy run k
  prune_run limit good bad run failed k =
      if leb bad failures_kept then k else remove_unless_busy run k

  unfoldable pub prune : ℕ → ℕ → ℕ → List BackupRun → Kept → Kept
  prune limit good bad [] k = k
  prune limit good bad (run ∷ runs) k =
      let good_now = if is_succeeded run.status then good + 1 else good in
      let bad_now = if is_failed run.status then bad + 1 else bad in
      prune limit good_now bad_now runs (prune_run limit good_now bad_now run run.status k)

  unfoldable pub prune_backups : ℕ → Kept → Kept
  prune_backups limit k = prune limit 0 0 k.runs k

abbrev pub is_running : RunStatus → Bool
is_running running = true
is_running _ = false

abbrev pub is_claimable : ℕ → BackupRun → Bool
is_claimable id r = r.id == id && (not r.busy && not (is_running r.status))

-- `ClaimBackupRun`, for a verification or a restore that begins; `none` is ErrBackupBusy.
unfoldable pub claim_run : ℕ → Kept → Option Kept
unfolding update_rows
claim_run id k =
    if any (is_claimable id) k.runs
    then some (record k {
      runs = update_rows (is_claimable id) (λ (r : BackupRun). record r { busy = true }) k.runs;
    })
    else none
