-- ===== src/Rotation/Losses.antt =====
-- A rotation after one whose rename failed, and the readers during a rotation.
use shipwick.Base.{
  ℕ, ◌≡◌, ◌≢◌, ◌⊎◌, inl, inr, refl, if◌then◌else◌, Bool, true, false, Option, none, some, length,
  both_branches,
}
use shipwick.Sealing.{Text, Name, Cipher}
use shipwick.Sealing.Values.{IsCipher}
use shipwick.Rotation.{
  Database, Draws, reencrypt, holds, Disk, Ring, ring_rotate, ring_unlock, synced, not_synced,
  cut_short, not_opened, Written, Commit, committed, failed_before, failed_after, stopped,
  not_written, not_moved, failed_with, if_synced, written_to, Answers, Rotated, committed_to,
  rotate_key, rotate_data, run_reencrypt, finish_rotation, settle_rotation,
}
use shipwick.Rotation.Crashes.{HasKey, IsRecovered}
use shipwick.Rotation.Lost.{
  in_key_file, IsLost, IsUnopened, StopsBetween, rotate_key-IsLost, settle-IsUnopened,
}
use shipwick.Rotation.Unfit.{HasColumn, reencrypt-unfit}
use shipwick.Rotation.Stops.{branches_of_fault, rotate_key-settle_rotation}

-- What a rotation leaves whose rename failed: the database under the key that is pending.
record NotMoved (c : Cipher) (next : ℕ) (draws : Draws) (ring : Ring) (disk : Disk) (r : Rotated)
    : Type 0 where
  database : Database
  is_sealed_again : reencrypt c ring.current next draws disk.database ≡ some database
  is_left :
      r.disk ≡ record { configured = disk.configured; pending = holds next; database = database }

module _ (c : Cipher) (a : Answers) (next : ℕ) (draws : Draws) (ring : Ring) (disk : Disk) where
  abbrev IfNotMoved : Rotated → Type 0
  IfNotMoved r = r.error ≡ some not_moved → NotMoved c next draws ring disk r

  abbrev file : Disk
  file = record disk { pending = holds next }

  run-IfNotMoved :
      (begins : Bool) (commit : Commit) (o : Option Database)
      → reencrypt c ring.current next draws disk.database ≡ o
      → IfNotMoved (
          finish_rotation c in_key_file a next ring file
            (if begins then committed_to commit disk.database o else (false, false, disk.database)))
  unfolding finish_rotation
  run-IfNotMoved false commit o e = λ h. absurd (cc h)
  run-IfNotMoved true commit none e = λ h. absurd (cc h)
  run-IfNotMoved true failed_before (some db) e = λ h. absurd (cc h)
  run-IfNotMoved true failed_after (some db) e = λ h. absurd (cc h)
  run-IfNotMoved true committed (some db) e =
      (branches_of_fault IfNotMoved a.fault _ _ (λ h. absurd (cc h))
        (both_branches IfNotMoved a.renames _ _ (λ k h. absurd (cc h))
          (λ k h. record { database = db; is_sealed_again = e; is_left = refl }))).1

  written-IfNotMoved :
      (w : Written)
      → (let written = record disk { pending = written_to c in_key_file a next w disk.pending } in
          IfNotMoved (
            if_synced w
              (rotate_data c in_key_file a next draws ring written)
              (failed_with not_written ring written)))
  unfolding rotate_data run_reencrypt
  written-IfNotMoved synced =
      (branches_of_fault IfNotMoved a.fault (failed_with stopped ring file) _ (λ h. absurd (cc h))
        (run-IfNotMoved a.begins a.commit (reencrypt c ring.current next draws disk.database)
          refl)).0
  written-IfNotMoved not_synced = λ h. absurd (cc h)
  written-IfNotMoved cut_short = λ h. absurd (cc h)
  written-IfNotMoved not_opened = λ h. absurd (cc h)

  rotate_key-IfNotMoved : IfNotMoved (rotate_key c in_key_file a next draws ring disk)
  unfolding rotate_key
  rotate_key-IfNotMoved = written-IfNotMoved a.written

-- After a rotation of the key file whose rename failed, of an agent whose key opens everything, the
-- next start recovers. But another rotation before that start, which stops between the writing of
-- its key and the commit, or fails there, leaves no key on the disk that fits the database, and no
-- start opens it, whatever it can remove and rename. The new key of the first rotation is neither
-- the key of the key file nor that of the second one, and the first sealed column has a value.
pub rotate_key-twice :
    (c : Cipher) (laws : IsCipher c) (plain : Database) (a b : Answers) (next third : ℕ)
    (draws : Draws) (ring : Ring) (disk : Disk) (removes renames : Bool)
    → ((n : ℕ) (name : Name) → length (draws.for_column n name) ≡ c.nonce_size)
    → ((n : ℕ) (name : Name) → length (draws.for_spec n name) ≡ c.nonce_size)
    → ring.current ≡ disk.configured
    → HasKey c plain disk
    → HasColumn disk.database
    → disk.configured ≢ next
    → third ≢ next
    → (rotate_key c in_key_file a next draws ring disk).error ≡ some not_moved
    → StopsBetween b
    → (let first = rotate_key c in_key_file a next draws ring disk in
        let second = rotate_key c in_key_file b third draws first.ring first.disk in
        IsRecovered c plain (settle_rotation c in_key_file true true first.disk)
        × IsLost c second.disk
        × IsUnopened c (settle_rotation c in_key_file removes renames second.disk))
rotate_key-twice c laws plain a b next third draws ring disk removes renames columns specs current h
      has apart third_apart stays stops =
    let first = rotate_key c in_key_file a next draws ring disk in
    let left = rotate_key-IfNotMoved c a next draws ring disk stays in
    let unfit = λ (k : ℕ) (e : k ≢ next).
      reencrypt-unfit c laws ring.current next k e draws disk.database left.database columns has
        left.is_sealed_again in
    let lost =
      rotate_key-IsLost c b third draws first.ring first.disk
        (rw left.is_left (unfit disk.configured apart)) (rw left.is_left (unfit third third_apart))
        stops in
    (
      rotate_key-settle_rotation c laws plain in_key_file refl a next draws ring columns specs disk
          refl current h,
      lost,
      settle-IsUnopened c removes renames
          (rotate_key c in_key_file b third draws first.ring first.disk).disk lost,
    )

-- A value that was sealed under the key before a rotation, or under the key since, opens with the
-- ring.
pub ring_unlock-ring_rotate :
    (c : Cipher) (laws : IsCipher c) (ring : Ring) (next key : ℕ) (nonce plain : Text) (name : Name)
    → next ≢ ring.current
    → (key ≡ next) ⊎ (key ≡ ring.current)
    → ring_unlock c (ring_rotate next ring) nonce (c.lock key nonce plain name) name ≡ some plain
unfolding ring_unlock ring_rotate
ring_unlock-ring_rotate c laws ring next key nonce plain name apart (inl e) =
    rw (e, laws.unlock-lock next nonce plain name) refl
ring_unlock-ring_rotate c laws ring next key nonce plain name apart (inr e) =
    rw
      (
        e,
        laws.unlock_other ring.current next nonce plain name apart,
        laws.unlock-lock ring.current nonce plain name,
      )
      refl
