-- ===== src/BackupRuns/Outcomes.antt =====
-- The outcome of a backup, once it has completed.
use shipwick.Base.{
  ℕ, ◌+◌, ◌≤◌, ◌≡◌, ◌∙◌, ap, sym, subst, refl, inl, inr, Bool, true, false, not, ◌&&◌, Option, none,
  some, List, [], ◌∷◌, ◌++◌, ◌==◌, &&_true, any, find_row, update_rows, or_row, changed,
  find_row-append, find_row-update, find_row-keep, ok-injective, Bool-cases, arith, some_same, leb,
  leb→le, if_true, if_false,
}
use Prim.Native.String.{String}
use shipwick.Retention.{RunStatus}
use shipwick.BackupRuns.{
  idle, Run, is_running, is_idle, is_verify, is_restore, find_run, has_id, new_run,
  create_backup_run, finish_row, finish_backup_run, can_claim, claim_backup_run, release_backup_run,
  verify_row, finish_backup_verify, restore_row, finish_backup_restore, delete_backup_run,
  interrupt_rows, interrupt_backup_runs, reserve_backup_run_ids, fail_row, unverify_row,
  unrestore_row,
}
use shipwick.BackupRuns.Claimed.{Reach-IsClaimed}
use shipwick.BackupRuns.Works.{
  World, Step, creates, ends, claims, verified, restored, released, removed, restarts, reserves,
  Reach, next, IsClaimed,
}

pub record Outcome : Type 0 where
  pub status : RunStatus
  pub volumes : List ℕ
  pub destinations : List ℕ
  pub encrypted : Bool
  pub error : String
  pub completed_at : Option ℕ

abbrev pub outcome : Run → Outcome
outcome r = record {
  status = r.status;
  volumes = r.volumes;
  destinations = r.destinations;
  encrypted = r.encrypted;
  error = r.error;
  completed_at = r.completed_at;
}

-- Any number of steps.
pub data Steps (w : World) : World → Type 0 where
  none_yet : Steps w w
  then_one : {v u : World} → Steps w v → Step v u → Steps w u

-- The id was given, and the row with it, if it is there, has this outcome.
record Keeps (id : ℕ) (o : Outcome) (w : World) : Type 0 where
  given : id ≤ w.table.sequence
  lasting :
      (r : Run)
      → find_run id w.table.rows ≡ some r
      → (is_running r.status ≡ false) × (outcome r ≡ o)

abbrev Lasts : ℕ → Outcome → List Run → Type 0
Lasts id o rows =
    (r : Run) → find_run id rows ≡ some r → (is_running r.status ≡ false) × (outcome r ≡ o)

lasts_found :
    (hit : Run → Bool) (change : Run → Run) (o : Outcome) (was : Option Run) (r : Run)
    → ((s : Run)
        → is_running s.status ≡ false
        → hit s ≡ true
        → (is_running (change s).status ≡ false) × (outcome (change s) ≡ outcome s))
    → ((s : Run) → was ≡ some s → (is_running s.status ≡ false) × (outcome s ≡ o))
    → changed hit change was ≡ some r
    → (is_running r.status ≡ false) × (outcome r ≡ o)
lasts_found hit change o none r ok' h e = absurd (cc e)
lasts_found hit change o (some s) r ok' h e = elim (Bool-cases (hit s)) [
  | inr miss ↦ h r (ap (λ x. some x) (sym (if_false (hit s) (change s) s miss)) ∙ e)
  | inl is ↦
      let same : change s ≡ r =
        some_same (change s) r (ap (λ x. some x) (sym (if_true (hit s) (change s) s is)) ∙ e) in
      let (quiet, oc) = h s refl in
      let (quiet', oc') = ok' s quiet is in
      subst (λ x. (is_running x.status ≡ false) × (outcome x ≡ o)) same (quiet', oc' ∙ oc)
]

Lasts-update :
    (hit : Run → Bool) (change : Run → Run) (id : ℕ) (o : Outcome) (rows : List Run)
    → ((s : Run) → (change s).id ≡ s.id)
    → ((s : Run)
        → is_running s.status ≡ false
        → hit s ≡ true
        → (is_running (change s).status ≡ false) × (outcome (change s) ≡ outcome s))
    → Lasts id o rows
    → Lasts id o (update_rows hit change rows)
Lasts-update hit change id o rows same_id ok' h r e =
    lasts_found hit change o (find_run id rows) r ok' h
      (sym (find_row-update (λ (x : Run). x.id) hit change same_id id rows) ∙ e)

find_added :
    (id : ℕ) (w : World) (application trigger now : ℕ)
    → id ≤ w.table.sequence
    → find_run id (w.table.rows ++ new_run (w.table.sequence + 1) application trigger now ∷ [])
      ≡ find_run id w.table.rows
unfolding find_row
find_added id w application trigger now given =
    let run = new_run (w.table.sequence + 1) application trigger now in
    let differ : (w.table.sequence + 1 == id) ≡ false = ground (arith, given) in
    let none' : find_run id (run ∷ []) ≡ none = simp differ refl in
    find_row-append (λ (r : Run). r.id) id w.table.rows (run ∷ [])
    ∙ ap (or_row (find_run id w.table.rows)) none'
    ∙ or_nothing (find_run id w.table.rows)
  where
    or_nothing : (o : Option Run) → or_row o none ≡ o
    or_nothing none = refl
    or_nothing (some r) = refl

Lasts-interrupt :
    (now id : ℕ) (o : Outcome) (rows : List Run)
    → Lasts id o rows
    → Lasts id o (interrupt_rows now rows)
Lasts-interrupt now id o rows h =
    let once = update_rows (λ r. is_running r.status) (fail_row now) rows in
    let twice = update_rows (λ r. is_verify r.activity) unverify_row once in
    let thrice = update_rows (λ r. is_restore r.activity) unrestore_row twice in
    Lasts-update (λ r. not (is_idle r.activity)) (λ r. record r { activity = idle }) id o thrice
      (λ s. refl) (λ s quiet hit. (quiet, refl))
      (Lasts-update (λ r. is_restore r.activity) unrestore_row id o twice (λ s. refl)
        (λ s quiet hit. (quiet, refl))
        (Lasts-update (λ r. is_verify r.activity) unverify_row id o once (λ s. refl)
          (λ s quiet hit. (quiet, refl))
          (Lasts-update (λ r. is_running r.status) (fail_row now) id o rows (λ s. refl)
            (λ s quiet hit. absurd (cc (quiet, hit))) h)))

Step-Keeps :
    {w v : World} (id : ℕ) (o : Outcome) → Step w v → IsClaimed w → Keeps id o w → Keeps id o v
unfolding create_backup_run finish_backup_run claim_backup_run release_backup_run
    finish_backup_verify finish_backup_restore delete_backup_run interrupt_backup_runs
    reserve_backup_run_ids
Step-Keeps {w} id o (creates application trigger now t r e) x k =
    subst (λ u. Keeps id o (record w { table = u.0 })) (ok-injective e)
      (record {
        given = omega (arith, k.given);
        lasting = λ s h. k.lasting s (sym (find_added id w application trigger now k.given) ∙ h);
      })
Step-Keeps {w} id o (ends run now t e) x k =
    subst (λ u. Keeps id o (record w { table = u })) (ok-injective e)
      (record {
        given = k.given;
        lasting =
            Lasts-update (λ r. r.id == run.id && is_running r.status) (finish_row run now) id o
              w.table.rows (λ s. refl)
              (λ s quiet hit.
                absurd (cc (quiet, (&&_true (s.id == run.id) (is_running s.status) hit).1)))
              k.lasting;
      })
Step-Keeps {w} id o (claims id' activity t act e) x k =
    elim (Bool-cases (any (λ r. r.id == id' && can_claim r) w.table.rows)) [
      | inl free ↦
          subst
            (λ u.
              Keeps id o
                (record { table = u; works = record { run = id'; activity = activity } ∷ w.works }))
            (ok-injective (simp free at e))
            (record {
              given = k.given;
              lasting =
                  Lasts-update (λ r. r.id == id' && can_claim r)
                    (λ r. record r { activity = activity }) id o w.table.rows (λ s. refl)
                    (λ s quiet hit. (quiet, refl)) k.lasting;
            })
      | inr busy ↦ absurd (cc (simp busy at e))
    ]
Step-Keeps {w} id o (verified before after id' failure output now t is e) x k =
    subst (λ u. Keeps id o (record { table = u; works = before ++ after })) (ok-injective e)
      (record {
        given = k.given;
        lasting =
            Lasts-update (has_id id') (verify_row failure output now) id o w.table.rows (λ s. refl)
              (λ s quiet hit. (quiet, refl)) k.lasting;
      })
Step-Keeps {w} id o (restored before after id' failure now t is e) x k =
    subst (λ u. Keeps id o (record { table = u; works = before ++ after })) (ok-injective e)
      (record {
        given = k.given;
        lasting =
            Lasts-update (has_id id') (restore_row failure now) id o w.table.rows (λ s. refl)
              (λ s quiet hit. (quiet, refl)) k.lasting;
      })
Step-Keeps {w} id o (released before after id' t is e) x k =
    subst (λ u. Keeps id o (record { table = u; works = before ++ after })) (ok-injective e)
      (record {
        given = k.given;
        lasting =
            Lasts-update (has_id id') (λ r. record r { activity = idle }) id o w.table.rows
              (λ s. refl) (λ s quiet hit. (quiet, refl)) k.lasting;
      })
Step-Keeps {w} id o (removed before after id' t is e) x k =
    subst (λ u. Keeps id o (record { table = u; works = before ++ after })) (ok-injective e)
      (record {
        given = k.given;
        lasting = λ r h.
            k.lasting r
              (find_row-keep (λ (s : Run). s.id) (λ s. not (has_id id' s)) id w.table.rows r
                x.distinct h).0;
      })
Step-Keeps {w} id o (restarts now t interrupted e) x k =
    subst (λ u. Keeps id o (record { table = u.0; works = [] })) (ok-injective e)
      (record { given = k.given; lasting = Lasts-interrupt now id o w.table.rows k.lasting })
Step-Keeps {w} id o (reserves highest t e) x k =
    subst (λ u. Keeps id o (record w { table = u })) (ok-injective e)
      (record { given = omega (arith, k.given); lasting = k.lasting })

Steps-Keeps :
    {w v : World} (id : ℕ) (o : Outcome)
    → Steps w v
    → Reach w
    → Keeps id o w
    → Reach v × Keeps id o v
Steps-Keeps id o none_yet r k = (r, k)
Steps-Keeps id o (then_one ss step) r k =
    let (reached, kept) = Steps-Keeps id o ss r k in
    (next reached step, Step-Keeps id o step (Reach-IsClaimed reached) kept)

-- The outcome of a backup that is no longer running never changes: whatever steps follow, if the id
-- still has a row it is one with the same status, volumes, destinations, encryption, error and time of
-- completion.
pub outcome-lasts :
    {w v : World} (id : ℕ) (r s : Run)
    → Reach w
    → find_run id w.table.rows ≡ some r
    → is_running r.status ≡ false
    → Steps w v
    → find_run id v.table.rows ≡ some s
    → outcome s ≡ outcome r
outcome-lasts {w} id r s reached found over steps later =
    let k : Keeps id (outcome r) w = record {
      given = id_given;
      lasting = λ q e.
          let same = some_same r q (sym found ∙ e) in
          subst (λ x. (is_running x.status ≡ false) × (outcome x ≡ outcome r)) same (over, refl);
    } in
    ((Steps-Keeps id (outcome r) steps reached k).1.lasting s later).1
  where
    id_given : id ≤ w.table.sequence
    id_given = elim (Bool-cases (leb id w.table.sequence)) [
      | inl le ↦ leb→le id w.table.sequence le
      | inr past ↦ absurd (cc (found, (Reach-IsClaimed reached).counted id (ground (arith, past))))
    ]
