-- ===== src/Retention/Races.antt =====
-- Retention by a list of runs that is out of date.
use shipwick.Base.{
  ℕ, ◌≡◌, ◌∙◌, subst, refl, inl, inr, Bool, not, ◌&&◌, Bool-cases, some, update_rows, true, false,
  List, [], ◌∷◌, ◌++◌, ◌==◌, any, arith,
}
use shipwick.Retention.{
  BackupRun, Kept, Answers, is_failed, is_succeeded, is_running, is_claimable, prune, claim_run,
}
use shipwick.Retention.Limits.{has_run, has_files, count_status, is_kept, SameOf, prune-AtTurn}
use shipwick.Retention.Removals.{goes, deleted, files_removed}

-- The record of a run is there, marked as being verified or restored, and the run is over.
abbrev pub in_use : ℕ → Kept → Bool
in_use id k = any (λ r. r.id == id && (r.busy && not (is_running r.status))) k.runs

any-is_claimable :
    (id : ℕ) (rs : List BackupRun)
    → any (is_claimable id) rs ≡ true
    → any
        (λ r. r.id == id && (r.busy && not (is_running r.status)))
        (update_rows (is_claimable id) (λ r. record r { busy = true }) rs)
      ≡ true
unfolding update_rows
any-is_claimable id [] h = absurd (cc h)
any-is_claimable id (r ∷ rs) h = elim (Bool-cases (is_claimable id r)) [
  | inl is ↦ rw is (ground (arith, is))
  | inr other ↦
      let later = any-is_claimable id rs (ground (arith, h, other)) in
      rw other (ground (arith, later))
]

claim_run-in_use :
    (id : ℕ) (now claimed : Kept) → claim_run id now ≡ some claimed → in_use id claimed ≡ true
unfolding claim_run
claim_run-in_use id now claimed took_it = elim (Bool-cases (any (is_claimable id) now.runs)) [
  | inl is ↦
      let rows =
        update_rows (is_claimable id) (λ (r : BackupRun). record r { busy = true }) now.runs in
      let same : record now { runs = rows } ≡ claimed = cc (is, took_it) in
      subst (λ k. in_use id k ≡ true) same (any-is_claimable id now.runs is)
  | inr busy ↦ absurd (cc (busy, took_it))
]

module _ (a : Answers) (limit : ℕ) (newer : List BackupRun) (r : BackupRun) (older : List BackupRun)
    (alone : any (λ (o : BackupRun). o.id == r.id) newer ≡ false)
    (alone_after : any (λ (o : BackupRun). o.id == r.id) older ≡ false) where
  -- A claim that succeeds after the runs were listed for pruning does not protect the backup: the
  -- claim marks its record as in use, and the pruning then removes its files and its record all the
  -- same, if in the list it was idle and not one of those that stay, it had succeeded, and the
  -- storage and the store remove them; no other run has its id.
  pub prune-claim_run :
      (now claimed : Kept)
      → claim_run r.id now ≡ some claimed
      → is_kept limit newer r r.status ≡ false
      → is_failed r.status ≡ false
      → a.removes r.id ≡ true
      → a.deletes r.id ≡ true
      → (in_use r.id claimed ≡ true)
        × (has_files r.id (prune a limit 0 0 (newer ++ r ∷ older) claimed) ≡ false)
        × (has_run r.id (prune a limit 0 0 (newer ++ r ∷ older) claimed) ≡ false)
  prune-claim_run now claimed took_it h worked m d =
      let listed : Kept = record { runs = newer ++ r ∷ older; files = [] } in
      let t =
        prune-AtTurn a limit 0 0 (count_status is_succeeded newer) (count_status is_failed newer)
          newer r older claimed alone alone_after (omega arith) (omega arith) in
      let gone = goes a limit listed newer r older refl alone alone_after r.status t.middle h in
      let after =
        subst (λ l. SameOf r.id l (prune a limit 0 0 (newer ++ r ∷ older) claimed)) gone t.after in
      (
        claim_run-in_use r.id now claimed took_it,
        after.files ∙ files_removed a r t.middle worked m,
        after.run ∙ deleted a r t.middle d m,
      )
