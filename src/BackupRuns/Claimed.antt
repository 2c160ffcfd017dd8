-- ===== src/BackupRuns/Claimed.antt =====
-- Backups that are claimed, and all orders of steps.
use shipwick.Base.{
  ℕ, ◌+◌, ◌≡◌, ◌∙◌, ap, sym, subst, refl, inl, inr, Bool, true, false, not, ◌&&◌, Option, none,
  some, List, [], ◌∷◌, ◌++◌, ◌==◌, ==_iff, any, find_row, update_rows, or_row, changed, IsDistinct,
  IsDistinct-append, IsDistinct-update, find_row-append, find_row-update, ok-injective, Bool-cases,
  arith,
}
use shipwick.BackupRuns.{
  Activity, idle, verify, restore, remove, Run, is_running, is_idle, is_verify, is_restore,
  find_run, new_run, create_backup_run, finish_row, finish_backup_run, can_claim, claim_backup_run,
  release_backup_run, verify_row, finish_backup_verify, restore_row, finish_backup_restore,
  delete_backup_run, interrupt_rows, interrupt_backup_runs, reserve_backup_run_ids, fail_row,
  unverify_row, unrestore_row,
}
use shipwick.BackupRuns.Works.{
  World, Step, creates, ends, claims, verified, restored, released, removed, restarts, reserves,
  Reach, fresh, next, works_on, shown, IsClaimed,
}
use shipwick.BackupRuns.Ends.{
  update-IsClaimed, finish-IsClaimed, delete-IsClaimed, claimed_here, claimed_elsewhere,
}

-- A claim finds the backup idle.
claim-IsClaimed :
    (w : World) (id : ℕ) (activity : Activity)
    → is_idle activity ≡ false
    → any (λ r. r.id == id && can_claim r) w.table.rows ≡ true
    → IsClaimed w
    → IsClaimed (record {
      table = record w.table {
        rows =
            update_rows
              (λ r. r.id == id && can_claim r)
              (λ r. record r { activity = activity })
              w.table.rows;
      };
      works = record { run = id; activity = activity } ∷ w.works;
    })
claim-IsClaimed w id activity act free x = record {
  distinct = IsDistinct-update (λ (r : Run). r.id) hit change (λ r. refl) w.table.rows x.distinct;
  counted = λ other past. found other ∙ ap (changed hit change) (x.counted other past);
  agree = λ other. elim (Bool-cases (id == other)) [
    | inl same ↦
        let e = (==_iff id other).0 same in
        let here =
          claimed_here id activity act w.table.rows x.distinct free w.works
            (find_run id w.table.rows) refl (x.agree id) in
        simp same (
          subst
            (λ v.
              activity ∷ works_on v w.works
              ≡ shown (find_run v (update_rows hit change w.table.rows)))
            e (here ∙ ap shown (sym (found id))))
    | inr differ ↦ simp differ (
        x.agree other
        ∙ ap shown (
            sym (
              found other
              ∙ claimed_elsewhere id activity act w.table.rows x.distinct free w.works other
                  (find_run other w.table.rows) differ refl)))
  ];
}
  where
    hit : Run → Bool
    hit r = r.id == id && can_claim r

    change : Run → Run
    change r = record r { activity = activity }

    found :
        (other : ℕ)
        → find_run other (update_rows hit change w.table.rows)
          ≡ changed hit change (find_run other w.table.rows)
    found other = find_row-update (λ (r : Run). r.id) hit change (λ r. refl) other w.table.rows

shown-cleared :
    (o : Option Run)
    → shown (changed (λ r. not (is_idle r.activity)) (λ r. record r { activity = idle }) o) ≡ []
shown-cleared none = refl
shown-cleared (some r) = elim (Bool-cases (is_idle r.activity)) [
  | inl i ↦ simp i refl
  | inr i ↦ simp i refl
]

module _ (now : ℕ) (rows : List Run) where
  once : List Run
  once = update_rows (λ r. is_running r.status) (fail_row now) rows

  twice : List Run
  twice = update_rows (λ r. is_verify r.activity) unverify_row once

  thrice : List Run
  thrice = update_rows (λ r. is_restore r.activity) unrestore_row twice

  interrupted_idle : (id : ℕ) → shown (find_run id (interrupt_rows now rows)) ≡ []
  unfolding once twice thrice
  interrupted_idle id =
      ap shown (
        find_row-update (λ (r : Run). r.id) (λ r. not (is_idle r.activity))
          (λ r. record r { activity = idle }) (λ r. refl) id thrice)
      ∙ shown-cleared (find_run id thrice)

  interrupted_none :
      (id : ℕ) → find_run id rows ≡ none → find_run id (interrupt_rows now rows) ≡ none
  unfolding once twice thrice
  interrupted_none id h =
      find_row-update (λ (r : Run). r.id) (λ r. not (is_idle r.activity))
        (λ r. record r { activity = idle }) (λ r. refl) id thrice
      ∙ ap (changed (λ r. not (is_idle r.activity)) (λ r. record r { activity = idle })) (
          find_row-update (λ (r : Run). r.id) (λ r. is_restore r.activity) unrestore_row (λ r. refl)
            id twice
          ∙ ap (changed (λ r. is_restore r.activity) unrestore_row) (
              find_row-update (λ (r : Run). r.id) (λ r. is_verify r.activity) unverify_row
                (λ r. refl) id once
              ∙ ap (changed (λ r. is_verify r.activity) unverify_row) (
                  find_row-update (λ (r : Run). r.id) (λ r. is_running r.status) (fail_row now)
                    (λ r. refl) id rows
                  ∙ ap (changed (λ r. is_running r.status) (fail_row now)) h)))

  interrupted-IsDistinct :
      IsDistinct (λ (r : Run). r.id) rows → IsDistinct (λ (r : Run). r.id) (interrupt_rows now rows)
  unfolding once twice thrice
  interrupted-IsDistinct d =
      IsDistinct-update (λ (r : Run). r.id) (λ r. not (is_idle r.activity))
        (λ r. record r { activity = idle }) (λ r. refl) thrice
        (IsDistinct-update (λ (r : Run). r.id) (λ r. is_restore r.activity) unrestore_row
          (λ r. refl) twice
          (IsDistinct-update (λ (r : Run). r.id) (λ r. is_verify r.activity) unverify_row
            (λ r. refl) once
            (IsDistinct-update (λ (r : Run). r.id) (λ r. is_running r.status) (fail_row now)
              (λ r. refl) rows d)))

-- A row that is added has a new id and is idle.
add-IsClaimed :
    (w : World) (application trigger now : ℕ)
    → IsClaimed w
    → IsClaimed (record w {
      table = record {
        rows = w.table.rows ++ new_run (w.table.sequence + 1) application trigger now ∷ [];
        sequence = w.table.sequence + 1;
      };
    })
unfolding find_row
add-IsClaimed w application trigger now x = record {
  distinct =
      IsDistinct-append (λ (r : Run). r.id) w.table.rows run x.distinct
        (x.counted (w.table.sequence + 1) (omega arith));
  counted = λ id past.
      let differ : (w.table.sequence + 1 == id) ≡ false = ground (arith, past) in
      find_row-append (λ (r : Run). r.id) id w.table.rows (run ∷ [])
      ∙ ap (λ o. or_row o (find_run id (run ∷ []))) (x.counted id (omega (arith, past)))
      ∙ simp differ refl;
  agree = λ id.
      x.agree id
      ∙ sym (
          ap shown (find_row-append (λ (r : Run). r.id) id w.table.rows (run ∷ []))
          ∙ same_shown id (find_run id w.table.rows));
}
  where
    run : Run
    run = new_run (w.table.sequence + 1) application trigger now

    same_shown : (id : ℕ) (o : Option Run) → shown (or_row o (find_run id (run ∷ []))) ≡ shown o
    same_shown id (some r) = refl
    same_shown id none = elim (Bool-cases (w.table.sequence + 1 == id)) [
      | inl is ↦ simp is refl
      | inr differ ↦ simp differ refl
    ]

Step-IsClaimed : {w v : World} → Step w v → IsClaimed w → IsClaimed v
unfolding create_backup_run finish_backup_run claim_backup_run release_backup_run
    finish_backup_verify finish_backup_restore delete_backup_run interrupt_backup_runs
    reserve_backup_run_ids
Step-IsClaimed {w} (creates application trigger now t r e) x =
    subst (λ u. IsClaimed (record w { table = u.0 })) (ok-injective e)
      (add-IsClaimed w application trigger now x)
Step-IsClaimed {w} (ends run now t e) x =
    subst (λ u. IsClaimed (record w { table = u })) (ok-injective e)
      (update-IsClaimed (λ r. r.id == run.id && is_running r.status) (finish_row run now) w
        (λ r. refl) (λ r. refl) x)
Step-IsClaimed {w} (claims id activity t act e) x =
    elim (Bool-cases (any (λ r. r.id == id && can_claim r) w.table.rows)) [
      | inl free ↦
          subst
            (λ u.
              IsClaimed
                (record { table = u; works = record { run = id; activity = activity } ∷ w.works }))
            (ok-injective (simp free at e)) (claim-IsClaimed w id activity act free x)
      | inr busy ↦ absurd (cc (simp busy at e))
    ]
Step-IsClaimed {w} (verified before after id failure output now t is e) x =
    subst (λ u. IsClaimed (record { table = u; works = before ++ after })) (ok-injective e)
      (finish-IsClaimed (verify_row failure output now) w before after id verify (λ r. refl)
        (λ r. refl) is x)
Step-IsClaimed {w} (restored before after id failure now t is e) x =
    subst (λ u. IsClaimed (record { table = u; works = before ++ after })) (ok-injective e)
      (finish-IsClaimed (restore_row failure now) w before after id restore (λ r. refl) (λ r. refl)
        is x)
Step-IsClaimed {w} (released before after id t is e) x =
    subst (λ u. IsClaimed (record { table = u; works = before ++ after })) (ok-injective e)
      (finish-IsClaimed (λ r. record r { activity = idle }) w before after id remove (λ r. refl)
        (λ r. refl) is x)
Step-IsClaimed {w} (removed before after id t is e) x =
    subst (λ u. IsClaimed (record { table = u; works = before ++ after })) (ok-injective e)
      (delete-IsClaimed w before after id remove is x)
Step-IsClaimed {w} (restarts now t interrupted e) x =
    subst (λ u. IsClaimed (record { table = u.0; works = [] })) (ok-injective e)
      (record {
        distinct = interrupted-IsDistinct now w.table.rows x.distinct;
        counted = λ id past. interrupted_none now w.table.rows id (x.counted id past);
        agree = λ id. sym (interrupted_idle now w.table.rows id);
      })
Step-IsClaimed {w} (reserves highest t e) x =
    subst (λ u. IsClaimed (record w { table = u })) (ok-injective e)
      (record {
        distinct = x.distinct;
        counted = λ id past. x.counted id (omega (arith, past));
        agree = x.agree;
      })

-- However backups begin and end, are verified, restored and removed under a claim, and however often
-- the agent starts again: ids are given once, and the row of each backup names the one work on it, if
-- there is one; so nothing is done twice at a time with one backup. Removals that make no claim, as
-- those of retention, are not among the steps.
pub Reach-IsClaimed : {w : World} → Reach w → IsClaimed w
unfolding find_row
Reach-IsClaimed fresh = record { distinct = tt; counted = λ id past. refl; agree = λ id. refl }
Reach-IsClaimed (next r step) = Step-IsClaimed step (Reach-IsClaimed r)
