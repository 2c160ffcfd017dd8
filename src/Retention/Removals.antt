-- ===== src/Retention/Removals.antt =====
-- Retention over all runs of an owner.
use shipwick.Base.{
  ℕ, ◌+◌, ◌≡◌, ◌∙◌, ap, sym, subst, refl, inl, inr, true, false, not, ◌&&◌, List, [], ◌∷◌, ◌++◌,
  leb, ◌==◌, if◌then◌else◌, keep, any, Bool-cases, both_branches, arith,
}
use shipwick.Retention.{
  RunStatus, running, succeeded, failed, BackupRun, Kept, Answers, failures_kept, is_failed,
  is_succeeded, delete_run, remove_backup, remove_unless_busy, prune_run, prune, prune_backups,
}
use shipwick.Retention.Limits.{
  has_run, has_files, count_status, is_kept, SameOf, AtTurn, prune-AtTurn,
}

keep-gone :
    (id : ℕ) (rs : List BackupRun)
    → any (λ (r : BackupRun). r.id == id) (keep (λ (r : BackupRun). not (r.id == id)) rs) ≡ false
keep-gone id [] = refl
keep-gone id (r ∷ rs) = ground (arith, keep-gone id rs)

keep-files_gone :
    (id : ℕ) (fs : List ℕ) → any (λ (f : ℕ). f == id) (keep (λ (f : ℕ). not (f == id)) fs) ≡ false
keep-files_gone id [] = refl
keep-files_gone id (f ∷ fs) = ground (arith, keep-files_gone id fs)

has_run-among :
    (newer : List BackupRun) (r : BackupRun) (older : List BackupRun)
    → any (λ (o : BackupRun). o.id == r.id) (newer ++ r ∷ older) ≡ true
has_run-among [] r older = ground arith
has_run-among (n ∷ newer) r older = ground (arith, has_run-among newer r older)

module _ (a : Answers) (r : BackupRun) (l : Kept) where
  pub deleted :
      a.deletes r.id ≡ true → a.removes r.id ≡ true → has_run r.id (remove_backup a r l) ≡ false
  unfolding remove_backup delete_run
  deleted d m = elim (Bool-cases (is_failed r.status)) [
    | inl h ↦ simp (h, d) (keep-gone r.id l.runs)
    | inr h ↦ simp (h, d, m) (keep-gone r.id l.runs)
  ]

  not_deleted : a.deletes r.id ≡ false → has_run r.id (remove_backup a r l) ≡ has_run r.id l
  unfolding remove_backup delete_run
  not_deleted d = elim (Bool-cases (is_failed r.status)) [
    | inl h ↦ simp (h, d) refl
    | inr h ↦ elim (Bool-cases (a.removes r.id)) [
      | inl m ↦ simp (h, d, m) refl
      | inr m ↦ simp (h, d, m) refl
    ]
  ]

  pub files_removed :
      is_failed r.status ≡ false
      → a.removes r.id ≡ true
      → has_files r.id (remove_backup a r l) ≡ false
  unfolding remove_backup delete_run
  files_removed h m = elim (Bool-cases (a.deletes r.id)) [
    | inl d ↦ simp (h, d, m) (keep-files_gone r.id l.files)
    | inr d ↦ simp (h, d, m) (keep-files_gone r.id l.files)
  ]

module _ (a : Answers) (limit : ℕ) (k : Kept) (newer : List BackupRun) (r : BackupRun)
    (older : List BackupRun) (is : k.runs ≡ newer ++ r ∷ older)
    (alone : any (λ (o : BackupRun). o.id == r.id) newer ≡ false)
    (alone_after : any (λ (o : BackupRun). o.id == r.id) older ≡ false) where
  abbrev good : ℕ
  good = count_status is_succeeded newer

  abbrev bad : ℕ
  bad = count_status is_failed newer

  turn : AtTurn a limit good bad r k (prune_backups a limit k)
  unfolding prune_backups
  turn =
      subst (λ rs. AtTurn a limit good bad r k (prune a limit 0 0 rs k)) (sym is)
        (prune-AtTurn a limit 0 0 good bad newer r older k alone alone_after (omega arith)
          (omega arith))

  stays :
      (s : RunStatus) (l : Kept)
      → is_kept limit newer r s ≡ true
      → prune_run a limit
          (if is_succeeded s then good + 1 else good)
          (if is_failed s then bad + 1 else bad)
          r
          s
          l
        ≡ l
  stays running l h = refl
  stays succeeded l h = elim (Bool-cases r.busy) [
    | inl busy ↦
        both_branches (λ m. m ≡ l) (leb (good + 1) limit) l (remove_unless_busy a r l) (λ e. refl)
          (λ e. rw busy refl)
    | inr free ↦
        let within : leb (good + 1) limit ≡ true = ground (arith, h, free) in rw within refl
  ]
  stays failed l h = elim (Bool-cases r.busy) [
    | inl busy ↦
        both_branches (λ m. m ≡ l) (leb (bad + 1) failures_kept) l (remove_unless_busy a r l)
          (λ e. refl) (λ e. rw busy refl)
    | inr free ↦
        let within : leb (bad + 1) failures_kept ≡ true = ground (arith, h, free) in rw within refl
  ]

  -- A backup that the list shows as being taken, verified or restored stays, and so does each of the
  -- newest `limit` that succeeded and of the newest 20 that failed, with its files, whatever the
  -- storage and the store answer; `r` stands in the list of runs behind those that are newer, and no
  -- other run has its id.
  pub prune_backups-keeps :
      is_kept limit newer r r.status ≡ true
      → (has_run r.id (prune_backups a limit k) ≡ true)
        × (has_files r.id (prune_backups a limit k) ≡ has_files r.id k)
  prune_backups-keeps h =
      let t = turn in
      let same = stays r.status t.middle h in
      let after = subst (λ m. SameOf r.id m (prune_backups a limit k)) same t.after in
      (
        after.run
            ∙ t.before.run
            ∙ ap (λ rs. any (λ (o : BackupRun). o.id == r.id) rs) is
            ∙ has_run-among newer r older,
        after.files ∙ t.before.files,
      )

  pub goes :
      (s : RunStatus) (l : Kept)
      → is_kept limit newer r s ≡ false
      → prune_run a limit
          (if is_succeeded s then good + 1 else good)
          (if is_failed s then bad + 1 else bad)
          r
          s
          l
        ≡ remove_backup a r l
  goes running l h = absurd (cc h)
  goes succeeded l h =
      let over : leb (good + 1) limit ≡ false = ground (arith, h) in
      let free : r.busy ≡ false = ground (arith, h) in simp (over, free) refl
  goes failed l h =
      let over : leb (bad + 1) failures_kept ≡ false = ground (arith, h) in
      let free : r.busy ≡ false = ground (arith, h) in simp (over, free) refl

  -- Any other backup is gone afterwards, its record and, unless it failed and had none, its files,
  -- if the storage and the store remove them; `r` as above.
  pub prune_backups-removes :
      is_kept limit newer r r.status ≡ false
      → a.removes r.id ≡ true
      → a.deletes r.id ≡ true
      → (has_run r.id (prune_backups a limit k) ≡ false)
        × ((not (is_failed r.status) && has_files r.id (prune_backups a limit k)) ≡ false)
  prune_backups-removes h m d =
      let t = turn in
      let gone = goes r.status t.middle h in
      let after = subst (λ l. SameOf r.id l (prune_backups a limit k)) gone t.after in
      (
        after.run ∙ deleted a r t.middle d m,
        elim (Bool-cases (is_failed r.status)) [
          | inl none_kept ↦ ground (arith, none_kept)
          | inr worked ↦ ground (arith, worked, after.files, files_removed a r t.middle worked m)
        ],
      )

  -- A backup that succeeded and is not kept is left as a record without files if the storage
  -- removes its files and the store does not delete its record; `r` as above.
  pub prune_backups-deletes :
      is_kept limit newer r r.status ≡ false
      → is_failed r.status ≡ false
      → a.removes r.id ≡ true
      → a.deletes r.id ≡ false
      → (has_run r.id (prune_backups a limit k) ≡ true)
        × (has_files r.id (prune_backups a limit k) ≡ false)
  prune_backups-deletes h worked m d =
      let t = turn in
      let gone = goes r.status t.middle h in
      let after = subst (λ l. SameOf r.id l (prune_backups a limit k)) gone t.after in
      (
        after.run
            ∙ not_deleted a r t.middle d
            ∙ t.before.run
            ∙ ap (λ rs. any (λ (o : BackupRun). o.id == r.id) rs) is
            ∙ has_run-among newer r older,
        after.files ∙ files_removed a r t.middle worked m,
      )
