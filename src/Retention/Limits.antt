-- ===== src/Retention/Limits.antt =====
-- What retention keeps, and what it removes.
use shipwick.Base.{
  ℕ, ◌+◌, ◌≡◌, ◌∙◌, refl, Bool, true, false, not, ◌||◌, List, [], ◌∷◌, ◌++◌, ltb, leb, ◌==◌,
  if◌then◌else◌, keep, any, both_branches, arith,
}
use shipwick.Retention.{
  RunStatus, running, succeeded, failed, BackupRun, Kept, Answers, failures_kept, is_failed,
  is_succeeded, delete_run, remove_backup, remove_unless_busy, prune_run, prune,
}

abbrev pub has_run : ℕ → Kept → Bool
has_run id k = any (λ (r : BackupRun). r.id == id) k.runs

abbrev pub has_files : ℕ → Kept → Bool
has_files id k = any (λ (f : ℕ). f == id) k.files

abbrev pub count_status : (RunStatus → Bool) → List BackupRun → ℕ
count_status p [] = 0
count_status p (r ∷ rs) = if p r.status then count_status p rs + 1 else count_status p rs

-- A backup is kept for being one of the newest that succeeded or failed, or in use.
abbrev pub is_kept : ℕ → List BackupRun → BackupRun → RunStatus → Bool
is_kept limit newer r running = true
is_kept limit newer r succeeded = r.busy || ltb (count_status is_succeeded newer) limit
is_kept limit newer r failed = r.busy || ltb (count_status is_failed newer) failures_kept

-- The same run and files of an id in two states.
pub record SameOf (id : ℕ) (k l : Kept) : Type 0 where
  pub run : has_run id l ≡ has_run id k
  pub files : has_files id l ≡ has_files id k

module _ (a : Answers) where
  SameOf-trans : (id : ℕ) (k l m : Kept) → SameOf id k l → SameOf id l m → SameOf id k m
  SameOf-trans id k l m x y = record { run = y.run ∙ x.run; files = y.files ∙ x.files }

  any-keep_runs :
      (id gone : ℕ) (rs : List BackupRun)
      → (gone == id) ≡ false
      → any (λ (r : BackupRun). r.id == id) (keep (λ (r : BackupRun). not (r.id == gone)) rs)
        ≡ any (λ (r : BackupRun). r.id == id) rs
  any-keep_runs id gone [] e = refl
  any-keep_runs id gone (r ∷ rs) e = ground (arith, e, any-keep_runs id gone rs e)

  any-keep_files :
      (id gone : ℕ) (fs : List ℕ)
      → (gone == id) ≡ false
      → any (λ (f : ℕ). f == id) (keep (λ (f : ℕ). not (f == gone)) fs)
        ≡ any (λ (f : ℕ). f == id) fs
  any-keep_files id gone [] e = refl
  any-keep_files id gone (f ∷ fs) e = ground (arith, e, any-keep_files id gone fs e)

  delete_run-SameOf :
      (id gone : ℕ) (k : Kept) → (gone == id) ≡ false → SameOf id k (delete_run a gone k)
  unfolding delete_run
  delete_run-SameOf id gone k e =
      both_branches (SameOf id k) (a.deletes gone) _ k
        (λ d. record { run = any-keep_runs id gone k.runs e; files = refl })
        (λ d. record { run = refl; files = refl })

  remove_backup-SameOf :
      (id : ℕ) (r : BackupRun) (k : Kept) → (r.id == id) ≡ false → SameOf id k (remove_backup a r k)
  unfolding remove_backup
  remove_backup-SameOf id r k e =
      let cleared = record k { files = keep (λ (f : ℕ). not (f == r.id)) k.files } in
      both_branches (SameOf id k) (is_failed r.status) (delete_run a r.id k) _
        (λ h. delete_run-SameOf id r.id k e)
        (λ h.
          both_branches (SameOf id k) (a.removes r.id) (delete_run a r.id cleared) k
            (λ g.
              SameOf-trans id k cleared (delete_run a r.id cleared)
                (record { run = refl; files = any-keep_files id r.id k.files e })
                (delete_run-SameOf id r.id cleared e))
            (λ g. record { run = refl; files = refl }))

  unless_busy :
      (id : ℕ) (r : BackupRun) (k : Kept)
      → (r.id == id) ≡ false
      → SameOf id k (remove_unless_busy a r k)
  unless_busy id r k e =
      both_branches (SameOf id k) r.busy k (remove_backup a r k)
        (λ h. record { run = refl; files = refl }) (λ h. remove_backup-SameOf id r k e)

  prune_run-SameOf :
      (id limit good bad : ℕ) (r : BackupRun) (s : RunStatus) (k : Kept)
      → (r.id == id) ≡ false
      → SameOf id k (prune_run a limit good bad r s k)
  prune_run-SameOf id limit good bad r running k e = record { run = refl; files = refl }
  prune_run-SameOf id limit good bad r succeeded k e =
      both_branches (SameOf id k) (leb good limit) k (remove_unless_busy a r k)
        (λ h. record { run = refl; files = refl }) (λ h. unless_busy id r k e)
  prune_run-SameOf id limit good bad r failed k e =
      both_branches (SameOf id k) (leb bad failures_kept) k (remove_unless_busy a r k)
        (λ h. record { run = refl; files = refl }) (λ h. unless_busy id r k e)

  prune-SameOf :
      (id limit good bad : ℕ) (rs : List BackupRun) (k : Kept)
      → any (λ (r : BackupRun). r.id == id) rs ≡ false
      → SameOf id k (prune a limit good bad rs k)
  unfolding prune
  prune-SameOf id limit good bad [] k e = record { run = refl; files = refl }
  prune-SameOf id limit good bad (r ∷ rs) k e =
      let good_now = if is_succeeded r.status then good + 1 else good in
      let bad_now = if is_failed r.status then bad + 1 else bad in
      let l = prune_run a limit good_now bad_now r r.status k in
      SameOf-trans id k l (prune a limit good_now bad_now rs l)
        (prune_run-SameOf id limit good_now bad_now r r.status k (ground (arith, e)))
        (prune-SameOf id limit good_now bad_now rs l (ground (arith, e)))

  -- The turn of one run among others that do not have its id.
  pub record AtTurn (limit good bad : ℕ) (r : BackupRun) (k l : Kept) : Type 0 where
    pub middle : Kept
    pub before : SameOf r.id k middle
    pub after :
        SameOf r.id
          (prune_run a limit
            (if is_succeeded r.status then good + 1 else good)
            (if is_failed r.status then bad + 1 else bad)
            r
            r.status
            middle)
          l

  pub prune-AtTurn :
      (limit good bad good_at bad_at : ℕ) (newer : List BackupRun) (r : BackupRun)
      (older : List BackupRun) (k : Kept)
      → any (λ (o : BackupRun). o.id == r.id) newer ≡ false
      → any (λ (o : BackupRun). o.id == r.id) older ≡ false
      → good_at ≡ good + count_status is_succeeded newer
      → bad_at ≡ bad + count_status is_failed newer
      → AtTurn limit good_at bad_at r k (prune a limit good bad (newer ++ r ∷ older) k)
  unfolding prune
  prune-AtTurn limit good bad good_at bad_at [] r older k e f g b =
      let same_good : good_at ≡ good = omega (arith, g) in
      let same_bad : bad_at ≡ bad = omega (arith, b) in
      rw (same_good, same_bad)
        (record {
          middle = k;
          before = record { run = refl; files = refl };
          after = prune-SameOf r.id limit _ _ older _ f;
        })
  prune-AtTurn limit good bad good_at bad_at (n ∷ newer) r older k e f g b =
      let good_now = if is_succeeded n.status then good + 1 else good in
      let bad_now = if is_failed n.status then bad + 1 else bad in
      let l = prune_run a limit good_now bad_now n n.status k in
      let t =
        prune-AtTurn limit good_now bad_now good_at bad_at newer r older l (ground (arith, e)) f
          (ground (arith, g)) (ground (arith, b)) in
      record {
        middle = t.middle;
        before =
            SameOf-trans r.id k l t.middle
              (prune_run-SameOf r.id limit good_now bad_now n n.status k (ground (arith, e)))
              t.before;
        after = t.after;
      }
