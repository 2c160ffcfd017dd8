-- ===== src/BackupRuns/Works.antt =====
-- Verifications, restores and removals of backups that begin and end in any order.
use Prim.Native.String.{String}
use shipwick.Base.{
  ℕ, ◌<◌, ◌≡◌, true, false, Option, none, some, List, [], ◌∷◌, ◌++◌, ◌==◌, if◌then◌else◌,
  IsDistinct, ok,
}
use shipwick.BackupRuns.{
  Activity, verify, restore, remove, Run, Table, empty_table, is_idle, find_run, create_backup_run,
  finish_backup_run, claim_backup_run, release_backup_run, finish_backup_verify,
  finish_backup_restore, delete_backup_run, interrupt_backup_runs, reserve_backup_run_ids,
}

-- Something that is being done with a backup.
pub record Work : Type 0 where
  pub run : ℕ
  pub activity : Activity

pub record World : Type 0 where
  pub table : Table
  pub works : List Work

-- What may happen, where the database takes the statements: a backup begins or ends, one is claimed
-- for something, a verification, a restore or a removal ends, the agent starts again, or ids are
-- reserved.
pub data Step (w : World) : World → Type 0 where
  creates :
      (application trigger now : ℕ) (t : Table) (r : Run)
      → create_backup_run true application trigger now w.table ≡ ok (t, r)
      → Step w (record w { table = t })
  ends :
      (run : Run) (now : ℕ) (t : Table)
      → finish_backup_run true run now w.table ≡ ok t
      → Step w (record w { table = t })
  claims :
      (id : ℕ) (activity : Activity) (t : Table)
      → is_idle activity ≡ false
      → claim_backup_run true id activity w.table ≡ ok t
      → Step w (record { table = t; works = record { run = id; activity = activity } ∷ w.works })
  verified :
      (before after : List Work) (id : ℕ) (failure output : String) (now : ℕ) (t : Table)
      → w.works ≡ before ++ record { run = id; activity = verify } ∷ after
      → finish_backup_verify true id failure output now w.table ≡ ok t
      → Step w (record { table = t; works = before ++ after })
  restored :
      (before after : List Work) (id : ℕ) (failure : String) (now : ℕ) (t : Table)
      → w.works ≡ before ++ record { run = id; activity = restore } ∷ after
      → finish_backup_restore true id failure now w.table ≡ ok t
      → Step w (record { table = t; works = before ++ after })
  released :
      (before after : List Work) (id : ℕ) (t : Table)
      → w.works ≡ before ++ record { run = id; activity = remove } ∷ after
      → release_backup_run true id w.table ≡ ok t
      → Step w (record { table = t; works = before ++ after })
  removed :
      (before after : List Work) (id : ℕ) (t : Table)
      → w.works ≡ before ++ record { run = id; activity = remove } ∷ after
      → delete_backup_run true id w.table ≡ ok t
      → Step w (record { table = t; works = before ++ after })
  restarts :
      (now : ℕ) (t : Table) (interrupted : List Run)
      → interrupt_backup_runs true now w.table ≡ ok (t, interrupted)
      → Step w (record { table = t; works = [] })
  reserves :
      (highest : ℕ) (t : Table)
      → reserve_backup_run_ids true highest w.table ≡ ok t
      → Step w (record w { table = t })

pub data Reach : World → Type 0 where
  fresh : Reach (record { table = empty_table; works = [] })
  next : {w v : World} → Reach w → Step w v → Reach v

-- What is being done with one backup, and what its row says.
abbrev pub works_on : ℕ → List Work → List Activity
works_on id [] = []
works_on id (w ∷ ws) = let rest = works_on id ws in if w.run == id then w.activity ∷ rest else rest

abbrev pub shown : Option Run → List Activity
shown none = []
shown (some r) = if is_idle r.activity then [] else r.activity ∷ []

-- Ids are given once, and the row of a backup says what is done with it, which is one thing at most.
pub record IsClaimed (w : World) : Type 0 where
  pub distinct : IsDistinct (λ (r : Run). r.id) w.table.rows
  pub counted : (id : ℕ) → w.table.sequence < id → find_run id w.table.rows ≡ none
  pub agree : (id : ℕ) → works_on id w.works ≡ shown (find_run id w.table.rows)
