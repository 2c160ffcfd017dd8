-- ===== src/BackupRuns.antt =====
-- The records of backups: agent/internal/store/backups.go. A table is the list of its rows, with the
-- number that the database counts ids with: an id is one more than the largest that was ever given.
-- Each operation is told whether the database takes its statements. Applications, triggers and
-- activities are few and stand as numbers or constructors; volumes and destinations are only stored.
pub mod Works
pub mod Ends
pub mod Claimed
pub mod Outcomes
use Prim.Native.String.{String}
use text.Mathlib.Text.{◌==◌ as str_eq}
use shipwick.Base.{
  ℕ, ◌+◌, max, Bool, true, false, not, ◌&&◌, Option, none, some, List, [], ◌∷◌, ◌++◌, ◌==◌,
  if◌then◌else◌, any, keep, find_row, update_rows, Result, ok, err, conflict, refused, ◌>>=◌, ◌>>◌,
  guard,
}
use shipwick.Retention.{RunStatus, running, succeeded, failed}

-- What is being done with a backup; `idle` is the empty text.
pub data Activity : Type 0 where
  idle verify restore remove : Activity

pub record Run : Type 0 where
  pub id : ℕ
  pub application : ℕ
  pub trigger : ℕ
  pub status : RunStatus
  pub volumes : List ℕ
  pub destinations : List ℕ
  pub encrypted : Bool
  pub error : String
  pub started_at : ℕ
  pub completed_at : Option ℕ
  pub activity : Activity
  pub verified_at : Option ℕ
  pub verify_error : String
  pub verify_output : String
  pub restored_at : Option ℕ
  pub restore_error : String

pub record Table : Type 0 where
  pub rows : List Run
  pub sequence : ℕ

abbrev pub empty_table : Table
empty_table = record { rows = []; sequence = 0 }

abbrev pub is_running : RunStatus → Bool
is_running running = true
is_running succeeded = false
is_running failed = false

abbrev pub is_idle : Activity → Bool
is_idle idle = true
is_idle verify = false
is_idle restore = false
is_idle remove = false

abbrev pub is_verify : Activity → Bool
is_verify verify = true
is_verify idle = false
is_verify restore = false
is_verify remove = false

abbrev pub is_restore : Activity → Bool
is_restore restore = true
is_restore idle = false
is_restore verify = false
is_restore remove = false

abbrev pub find_run : ℕ → List Run → Option Run
find_run = find_row (λ (r : Run). r.id)

abbrev pub has_id : ℕ → Run → Bool
has_id id r = r.id == id

abbrev pub new_run : ℕ → ℕ → ℕ → ℕ → Run
new_run id application trigger now = record {
  id = id;
  application = application;
  trigger = trigger;
  status = running;
  volumes = [];
  destinations = [];
  encrypted = false;
  error = "";
  started_at = now;
  completed_at = none;
  activity = idle;
  verified_at = none;
  verify_error = "";
  verify_output = "";
  restored_at = none;
  restore_error = "";
}

unfoldable pub create_backup_run : Bool → ℕ → ℕ → ℕ → Table → Result (Table × Run)
create_backup_run takes application trigger now t = do
  guard takes refused
  let run = new_run (t.sequence + 1) application trigger now
  ok (record { rows = t.rows ++ run ∷ []; sequence = t.sequence + 1 }, run)

-- WHERE id = ? AND status = 'running'
abbrev pub finish_row : Run → ℕ → Run → Run
finish_row run now r = record r {
  status = run.status;
  volumes = run.volumes;
  destinations = run.destinations;
  encrypted = run.encrypted;
  error = run.error;
  completed_at = some now;
}

unfoldable pub finish_backup_run : Bool → Run → ℕ → Table → Result Table
unfolding update_rows
finish_backup_run takes run now t = do
  guard takes refused
  ok (record t {
    rows = update_rows (λ r. r.id == run.id && is_running r.status) (finish_row run now) t.rows;
  })

abbrev pub can_claim : Run → Bool
can_claim r = is_idle r.activity && not (is_running r.status)

unfoldable pub claim_backup_run : Bool → ℕ → Activity → Table → Result Table
unfolding update_rows
claim_backup_run takes id activity t = do
  guard takes refused
  guard (any (λ r. r.id == id && can_claim r) t.rows) conflict
  ok (record t {
    rows =
        update_rows (λ r. r.id == id && can_claim r) (λ r. record r { activity = activity }) t.rows;
  })

unfoldable pub release_backup_run : Bool → ℕ → Table → Result Table
unfolding update_rows
release_backup_run takes id t = do
  guard takes refused
  ok (record t { rows = update_rows (has_id id) (λ r. record r { activity = idle }) t.rows })

abbrev pub when_empty : String → ℕ → Option ℕ
when_empty failure now = if str_eq failure "" then some now else none

abbrev pub verify_row : String → String → ℕ → Run → Run
verify_row failure output now r = record r {
  activity = idle;
  verified_at = when_empty failure now;
  verify_error = failure;
  verify_output = output;
}

unfoldable pub finish_backup_verify : Bool → ℕ → String → String → ℕ → Table → Result Table
unfolding update_rows
finish_backup_verify takes id failure output now t = do
  guard takes refused
  ok (record t { rows = update_rows (has_id id) (verify_row failure output now) t.rows })

abbrev pub restore_row : String → ℕ → Run → Run
restore_row failure now r = record r {
  activity = idle;
  restored_at = when_empty failure now;
  restore_error = failure;
}

unfoldable pub finish_backup_restore : Bool → ℕ → String → ℕ → Table → Result Table
unfolding update_rows
finish_backup_restore takes id failure now t = do
  guard takes refused
  ok (record t { rows = update_rows (has_id id) (restore_row failure now) t.rows })

unfoldable pub delete_backup_run : Bool → ℕ → Table → Result Table
delete_backup_run takes id t = do
  guard takes refused
  ok (record t { rows = keep (λ r. not (has_id id r)) t.rows })

abbrev pub reason : String
reason = "the agent was restarted while this was in progress"

abbrev pub fail_row : ℕ → Run → Run
fail_row now r = record r { status = failed; error = reason; completed_at = some now }

abbrev pub unverify_row : Run → Run
unverify_row r = record r { activity = idle; verified_at = none; verify_error = reason }

abbrev pub unrestore_row : Run → Run
unrestore_row r = record r { activity = idle; restored_at = none; restore_error = reason }

-- The four statements of `InterruptBackupRuns`, one after the other.
abbrev pub interrupt_rows : ℕ → List Run → List Run
interrupt_rows now rows =
    update_rows (λ r. not (is_idle r.activity)) (λ r. record r { activity = idle })
      (update_rows (λ r. is_restore r.activity) unrestore_row
        (update_rows (λ r. is_verify r.activity) unverify_row
          (update_rows (λ r. is_running r.status) (fail_row now) rows)))

-- With the backups that were running.
unfoldable pub interrupt_backup_runs : Bool → ℕ → Table → Result (Table × List Run)
unfolding update_rows
interrupt_backup_runs takes now t = do
  guard takes refused
  ok (record t { rows = interrupt_rows now t.rows }, keep (λ (r : Run). is_running r.status) t.rows)

unfoldable pub reserve_backup_run_ids : Bool → ℕ → Table → Result Table
reserve_backup_run_ids takes highest t = do
  guard takes refused
  ok (record t { sequence = max t.sequence highest })
