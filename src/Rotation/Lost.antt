-- ===== src/Rotation/Lost.antt =====
-- A disk without a key for the database, and what leads there and on from there.
use shipwick.Base.{
  ℕ, ◌≡◌, ◌⊎◌, inl, inr, refl, sym, subst, if◌then◌else◌, Bool, true, false, not, ◌&&◌, ◌||◌,
  Option, none, some, both_branches,
}
use shipwick.Sealing.{Cipher}
use shipwick.Rotation.{
  Database, key_fits, Draws, reencrypt, Pending, absent, cut, holds, Disk, Ring, Place, synced,
  not_synced, cut_short, not_opened, Written, Commit, committed, failed_before, failed_after,
  after_key, stopped, not_written, failed_with, stop_after_key, if_synced, written_to, Answers,
  Rotated, committed_to, rotate_key, rotate_data, run_reencrypt, finish_rotation, is_absent,
  Started, runs, refuses, settle_rotation, complete_rotation,
}
use shipwick.Rotation.Stops.{branches_of_fault}

abbrev pub in_key_file : Place
in_key_file = record { has_key_file = true; from_env = false; in_memory = false }

-- No key that the disk has opens the database.
abbrev pub PendingUnfit : Cipher → Database → Pending → Type 0
PendingUnfit c db absent = Unit
PendingUnfit c db cut = Unit
PendingUnfit c db (holds key) = key_fits c key db ≡ false

abbrev pub IsLost : Cipher → Disk → Type 0
IsLost c disk =
    (key_fits c disk.configured disk.database ≡ false) × PendingUnfit c disk.database disk.pending

-- A start that runs with a key that does not fit, or refuses and leaves no key that does.
abbrev pub IsUnopened : Cipher → Started → Type 0
IsUnopened c (runs ring disk) = key_fits c ring.current disk.database ≡ false
IsUnopened c (refuses e disk) = IsLost c disk

-- The new key reaches the pending file, at least in part, and the database stays as it is: the
-- file is not known to be written, or the agent stops before the transaction, or that fails
-- before it reaches the disk.
abbrev pub StopsBetween : Answers → Type 0
StopsBetween a =
    (a.written ≡ not_synced)
    ⊎ (a.written ≡ cut_short)
    ⊎ ((a.written ≡ synced)
        × ((a.fault ≡ after_key) ⊎ (a.begins ≡ false) ⊎ (a.commit ≡ failed_before)))

module _ (c : Cipher) (b : Answers) (third : ℕ) (draws : Draws) (ring : Ring) (disk : Disk)
    (unfit : key_fits c disk.configured disk.database ≡ false)
    (unfit_third : key_fits c third disk.database ≡ false) where
  abbrev LeavesLost : Rotated → Type 0
  LeavesLost r = IsLost c r.disk

  abbrev written : Disk
  written = record disk { pending = holds third }

  failed-IsLost :
      (reached : Bool)
      → LeavesLost
          (finish_rotation c in_key_file b third ring written (reached, false, disk.database))
  unfolding finish_rotation
  failed-IsLost reached =
      both_branches (IsLost c) ((not reached || key_fits c ring.current disk.database) && b.removes)
        (record disk { pending = absent }) written (λ e. (unfit, tt)) (λ e. (unfit, unfit_third))

  uncommitted-IsLost :
      (o : Option Database)
      → LeavesLost (
          finish_rotation c in_key_file b third ring written
            (committed_to failed_before disk.database o))
  uncommitted-IsLost none = failed-IsLost false
  uncommitted-IsLost (some after) = failed-IsLost true

  run-IsLost :
      (begins : Bool) (commit : Commit)
      → (begins ≡ false) ⊎ (commit ≡ failed_before)
      → (o : Option Database)
      → LeavesLost (
          finish_rotation c in_key_file b third ring written
            (if begins then committed_to commit disk.database o else (false, false, disk.database)))
  run-IsLost false commit h o = failed-IsLost false
  run-IsLost true failed_before h o = uncommitted-IsLost o
  run-IsLost true committed (inl e) o = absurd (cc e)
  run-IsLost true committed (inr e) o = absurd (cc e)
  run-IsLost true failed_after (inl e) o = absurd (cc e)
  run-IsLost true failed_after (inr e) o = absurd (cc e)

  rotate_data-IsLost :
      (b.fault ≡ after_key) ⊎ (b.begins ≡ false) ⊎ (b.commit ≡ failed_before)
      → LeavesLost (rotate_data c in_key_file b third draws ring written)
  unfolding rotate_data run_reencrypt
  rotate_data-IsLost (inl stops) =
      let rest =
        finish_rotation c in_key_file b third ring written
          (run_reencrypt c in_key_file b ring.current third draws disk.database) in
      subst (λ f. LeavesLost (stop_after_key f (failed_with stopped ring written) rest)) (sym stops)
        (unfit, unfit_third)
  rotate_data-IsLost (inr fails) =
      (branches_of_fault LeavesLost b.fault (failed_with stopped ring written) _
        (unfit, unfit_third)
        (run-IsLost b.begins b.commit fails (reencrypt c ring.current third draws disk.database))).0

  written-IsLost :
      (w : Written)
      → (w ≡ not_synced)
        ⊎ (w ≡ cut_short)
        ⊎ ((w ≡ synced) × ((b.fault ≡ after_key) ⊎ (b.begins ≡ false) ⊎ (b.commit ≡ failed_before)))
      → (let file = record disk { pending = written_to c in_key_file b third w disk.pending } in
          LeavesLost (
            if_synced w
              (rotate_data c in_key_file b third draws ring file)
              (failed_with not_written ring file)))
  written-IsLost synced (inl e) = absurd (cc e)
  written-IsLost synced (inr (inl e)) = absurd (cc e)
  written-IsLost synced (inr (inr (e, stops))) = rotate_data-IsLost stops
  written-IsLost not_synced h = (unfit, unfit_third)
  written-IsLost cut_short h = (unfit, tt)
  written-IsLost not_opened (inl e) = absurd (cc e)
  written-IsLost not_opened (inr (inl e)) = absurd (cc e)
  written-IsLost not_opened (inr (inr (e, stops))) = absurd (cc e)

  pub rotate_key-IsLost :
      StopsBetween b → LeavesLost (rotate_key c in_key_file b third draws ring disk)
  unfolding rotate_key
  rotate_key-IsLost stops = written-IsLost b.written stops

complete-IsUnopened :
    (c : Cipher) (removes renames : Bool) (disk : Disk) (pending : Pending)
    → disk.pending ≡ pending
    → IsLost c disk
    → IsUnopened c (complete_rotation c in_key_file removes renames disk pending)
unfolding complete_rotation
complete-IsUnopened c removes renames disk absent is h = h.0
complete-IsUnopened c removes renames disk cut is h = h
complete-IsUnopened c removes renames disk (holds key) is h =
    let unfit : key_fits c key disk.database ≡ false =
      subst (PendingUnfit c disk.database) is h.1 in
    rw unfit h

pub settle-IsUnopened :
    (c : Cipher) (removes renames : Bool) (disk : Disk)
    → IsLost c disk
    → IsUnopened c (settle_rotation c in_key_file removes renames disk)
unfolding settle_rotation
settle-IsUnopened c removes renames disk h =
    both_branches (IsUnopened c) (is_absent disk.pending) _ _ (λ e. h.0)
      (λ e. rw h.0 (complete-IsUnopened c removes renames disk disk.pending refl h))
