-- ===== src/Rotation/Stops.antt =====
-- What is on the disk when a rotation of the key file stops, and the start after it.
use shipwick.Base.{
  ℕ, ◌≡◌, refl, inl, inr, ◌⊎◌, Bool, true, false, not, ◌&&◌, ◌||◌, some, length, arith,
  both_branches,
}
use shipwick.Sealing.{Name, Cipher}
use shipwick.Sealing.Values.{IsCipher}
use shipwick.Rotation.{
  Database, open_all, key_fits, Draws, reencrypt, holds, Disk, Ring, Place, Written, synced,
  not_synced, cut_short, not_opened, Commit, committed, failed_before, failed_after, Fault,
  no_fault, after_key, after_commit, Answers, not_written, Rotated, failed_with, stop_after_key,
  stop_after_commit, if_synced, committed_to, is_absent, run_reencrypt, finish_rotation,
  rotate_data, rotate_key, settle_rotation, written_to,
}
use shipwick.Rotation.Each.{Resealed}
use shipwick.Rotation.Contents.{reencrypt-Resealed}
use shipwick.Rotation.Crashes.{
  HasKey, HasPending, IsSafe, IsRecovered, fitting, settle-HasKey, settle-HasPending, AsksForKey,
  settle_from_env,
}

pub branches_of_fault :
    (P : Rotated → Type 0) (f : Fault) (stop rest : Rotated)
    → P stop
    → P rest
    → P (stop_after_key f stop rest) × P (stop_after_commit f stop rest)
branches_of_fault P no_fault stop rest x y = (y, y)
branches_of_fault P after_key stop rest x y = (x, y)
branches_of_fault P after_commit stop rest x y = (y, x)

module _ (c : Cipher) (laws : IsCipher c) (plain : Database) (p : Place)
    (has_key_file : p.has_key_file ≡ true) (a : Answers) (next : ℕ) (draws : Draws)
    (ring : Ring) where
  abbrev LeavesSafe : Rotated → Type 0
  LeavesSafe r = IsSafe c plain r.disk

  finish_old :
      (disk : Disk) (reached : Bool) (db : Database)
      → open_all c disk.configured db ≡ some plain
      → LeavesSafe (finish_rotation c p a next ring disk (reached, false, db))
  unfolding finish_rotation
  finish_old disk reached db h =
      both_branches (IsSafe c plain)
        (p.has_key_file && (not reached || key_fits c ring.current db) && a.removes) _ _
        (λ e. inl h) (λ e. inl h)

  module _ (disk : Disk) (db : Database) (is_pending : disk.pending ≡ holds next)
      (opens : open_all c next db ≡ some plain)
      (only : (other : ℕ) (q : Database) → open_all c other db ≡ some q → q ≡ plain) where
    pending_new : HasPending c plain (record disk { database = db })
    pending_new = record { key = next; is_pending = is_pending; opens = opens; only = only }

    finish_new : LeavesSafe (finish_rotation c p a next ring disk (true, true, db))
    unfolding finish_rotation
    finish_new =
        (branches_of_fault LeavesSafe a.fault _ _ (inr pending_new) (
          both_branches LeavesSafe (p.has_key_file && not p.from_env) _ _
            (λ k. both_branches LeavesSafe a.renames _ _ (λ e. inl opens) (λ e. inr pending_new))
            (λ k. inr pending_new))).1

    finish_unknown :
        ring.current ≡ disk.configured
        → LeavesSafe (finish_rotation c p a next ring disk (true, false, db))
    unfolding finish_rotation
    finish_unknown current =
        both_branches (IsSafe c plain) (p.has_key_file && key_fits c ring.current db && a.removes) _
          _ (λ e. inl (fitting c plain disk.configured db only (ground (arith, e, current))))
          (λ e. inr pending_new)

  module _ (columns_size : (n : ℕ) (name : Name) → length (draws.for_column n name) ≡ c.nonce_size)
      (specs_size : (n : ℕ) (name : Name) → length (draws.for_spec n name) ≡ c.nonce_size) where
    transaction :
        (commit : Commit) (disk : Disk)
        → disk.pending ≡ holds next
        → ring.current ≡ disk.configured
        → HasKey c plain disk
        → Resealed (open_all c) next (reencrypt c ring.current next draws disk.database) plain
        → LeavesSafe (
            finish_rotation c p a next ring disk (
              committed_to commit disk.database
                (reencrypt c ring.current next draws disk.database)))
    transaction committed disk is_pending current h r =
        rw r.is_result (finish_new disk r.result is_pending r.opens r.only)
    transaction failed_before disk is_pending current h r =
        rw r.is_result (finish_old disk true disk.database h)
    transaction failed_after disk is_pending current h r =
        rw r.is_result (finish_unknown disk r.result is_pending r.opens r.only current)

    rotate_data-IsSafe :
        (disk : Disk)
        → disk.pending ≡ holds next
        → ring.current ≡ disk.configured
        → HasKey c plain disk
        → LeavesSafe (rotate_data c p a next draws ring disk)
    unfolding rotate_data run_reencrypt
    rotate_data-IsSafe disk is_pending current h =
        let opens : open_all c ring.current disk.database ≡ some plain = cc (h, current) in
        let r =
          reencrypt-Resealed c laws ring.current next draws columns_size specs_size disk.database
            plain opens in
        (branches_of_fault LeavesSafe a.fault _ _ (inl h) (
          both_branches (λ t. LeavesSafe (finish_rotation c p a next ring disk t)) a.begins _ _
            (λ e. transaction a.commit disk is_pending current h r)
            (λ e. finish_old disk false disk.database h))).0

    written_or_not :
        (written : Written) (disk : Disk)
        → ring.current ≡ disk.configured
        → HasKey c plain disk
        → (let file = record disk { pending = written_to c p a next written disk.pending } in
            LeavesSafe (
              if_synced written
                (rotate_data c p a next draws ring file)
                (failed_with not_written ring file)))
    written_or_not synced disk current h =
        rotate_data-IsSafe (record disk { pending = holds next }) refl current h
    written_or_not not_synced disk current h = inl h
    written_or_not cut_short disk current h = inl h
    written_or_not not_opened disk current h = inl h

    rotate_key-IsSafe :
        (disk : Disk)
        → ring.current ≡ disk.configured
        → HasKey c plain disk
        → LeavesSafe (rotate_key c p a next draws ring disk)
    unfolding rotate_key
    rotate_key-IsSafe disk current h = simp has_key_file (
        both_branches LeavesSafe (p.from_env && not (is_absent disk.pending)) _ _ (λ e. inl h)
          (λ e. written_or_not a.written disk current h))

    -- A rotation of the key file loses nothing, wherever it stops: of an agent that runs with the
    -- key of its key file, which opens everything, and whatever the system answers, whether the
    -- rotation is stopped after the new key is written or after the commit, whether a commit that
    -- failed had reached the disk, the next start, if it can remove and rename the pending file,
    -- runs with the key of the key file, which opens the database to the same contents, and nothing
    -- is pending.
    pub rotate_key-settle_rotation :
        (disk : Disk)
        → p.from_env ≡ false
        → ring.current ≡ disk.configured
        → HasKey c plain disk
        → IsRecovered c plain
            (settle_rotation c p true true (rotate_key c p a next draws ring disk).disk)
    rotate_key-settle_rotation disk not_env current h = elim (rotate_key-IsSafe disk current h) [
      | inl k ↦ settle-HasKey c plain p has_key_file true _ k
      | inr k ↦ settle-HasPending c plain p has_key_file not_env _ k
    ]

    -- Where the key comes from the environment, the start after a rotation that stopped anywhere
    -- either runs as above or asks for the pending key: it refuses, the disk being as it was, and
    -- once the environment has the pending key it runs with that, and nothing is pending.
    pub rotate_key-from_env :
        (disk : Disk)
        → p.from_env ≡ true
        → ring.current ≡ disk.configured
        → HasKey c plain disk
        → (let left = (rotate_key c p a next draws ring disk).disk in
            IsRecovered c plain (settle_rotation c p true true left) ⊎ AsksForKey c plain p left)
    rotate_key-from_env disk env current h =
        let left = (rotate_key c p a next draws ring disk).disk in
        elim (rotate_key-IsSafe disk current h) [
          | inl k ↦ inl (settle-HasKey c plain p has_key_file true left k)
          | inr k ↦ settle_from_env c plain p has_key_file env left k
        ]
