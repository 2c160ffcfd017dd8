-- ===== src/Rotation.antt =====
-- The rotation of the encryption key: agent/internal/store/rotation.go. What is on the disk is the
-- key that the agent starts with (of the key file or of the environment), the pending file and
-- the database; the database is its sealed columns and its specs, each with a number. That the
-- database can be read is taken for granted, and so is the randomness of the new key.
pub mod Each
pub mod Contents
pub mod Crashes
pub mod Stops
pub mod Unfit
pub mod Lost
pub mod Losses
use shipwick.Base.{
  ℕ, zero, suc, ◌+◌, Bool, true, false, not, ◌&&◌, ◌||◌, Option, none, some, List, [], ◌∷◌, ◌==◌,
  if◌then◌else◌, is_none,
}
use shipwick.Sealing.{
  Text, Name, Cipher, seal, open_value, Values, Nonces, Spec, seal_spec, open_spec,
}

-- What is opened for each, or nothing if one does not open.
abbrev pub cons_each {ℓ} : {A : Type ℓ} → Option A → Option (List A) → Option (List A)
cons_each none rest = none
cons_each (some a) none = none
cons_each (some a) (some rest) = some (a ∷ rest)

unfoldable pub each {ℓ κ} : {A : Type ℓ} {B : Type κ} → (A → Option B) → List A → Option (List B)
each f [] = some []
each f (x ∷ xs) = cons_each (f x) (each f xs)

abbrev pub with_number {ℓ κ} : {A : Type ℓ} {B : Type κ} → A → Option B → Option (A × B)
with_number n none = none
with_number n (some b) = some (n, b)

pub record Database : Type 0 where
  pub columns : List (ℕ × Values)
  pub specs : List (ℕ × Spec)

abbrev pub database_of : Option (List (ℕ × Values)) → Option (List (ℕ × Spec)) → Option Database
database_of none specs = none
database_of (some columns) none = none
database_of (some columns) (some specs) = some (record { columns = columns; specs = specs })

module _ (c : Cipher) (key : ℕ) where
  unfoldable pub open_cell : Name × Text → Option (Name × Text)
  open_cell (name, stored) = with_number name (open_value c key name stored)

  unfoldable pub open_column : ℕ × Values → Option (ℕ × Values)
  open_column (number, values) = with_number number (each open_cell values)

  unfoldable pub open_stored : ℕ × Spec → Option (ℕ × Spec)
  open_stored (id, app) = with_number id (open_spec c key app)

  -- Everything that the key opens; keyFits asks whether there is anything else.
  unfoldable pub open_all : Database → Option Database
  open_all db = database_of (each open_column db.columns) (each open_stored db.specs)

  unfoldable pub key_fits : Database → Bool
  key_fits db = not (is_none (open_all db))

-- The nonces that are drawn for a column and for a spec.
pub record Draws : Type 0 where
  pub for_column : ℕ → Nonces
  pub for_spec : ℕ → Nonces

abbrev pub same_text : Text → Text → Bool
same_text [] [] = true
same_text (x ∷ xs) (y ∷ ys) = x == y && same_text xs ys
same_text _ _ = false

abbrev pub same_values : Values → Values → Bool
same_values [] [] = true
same_values ((name, x) ∷ xs) ((other, y) ∷ ys) = same_text x y && same_values xs ys
same_values _ _ = false

-- A field that opening did not change stays as it is stored.
unfoldable pub kept_or_sealed : Values → Values → Values → Values
kept_or_sealed stored opened sealed = if same_values opened stored then stored else sealed

module _ (c : Cipher) (old next : ℕ) where
  abbrev pub sealed_again : Nonces → Name → Option Text → Option Text
  sealed_again drawn name none = none
  sealed_again drawn name (some plain) = some (seal c next (drawn name) name plain)

  unfoldable pub reencrypt_cell : Nonces → Name × Text → Option (Name × Text)
  reencrypt_cell drawn (name, stored) =
      with_number name (sealed_again drawn name (open_value c old name stored))

  unfoldable pub reencrypt_column : Draws → ℕ × Values → Option (ℕ × Values)
  reencrypt_column draws (number, values) =
      with_number number (each (reencrypt_cell (draws.for_column number)) values)

  abbrev pub resealed : Nonces → Spec → Option Spec → Option Spec
  resealed drawn stored none = none
  resealed drawn stored (some opened) =
      let sealed = seal_spec c next drawn opened in
      some (record {
        env = kept_or_sealed stored.env opened.env sealed.env;
        basic_auth = kept_or_sealed stored.basic_auth opened.basic_auth sealed.basic_auth;
        options = kept_or_sealed stored.options opened.options sealed.options;
      })

  unfoldable pub reencrypt_spec : Draws → ℕ × Spec → Option (ℕ × Spec)
  reencrypt_spec draws (id, stored) =
      with_number id (resealed (draws.for_spec id) stored (open_spec c old stored))

  -- The transaction up to its commit.
  unfoldable pub reencrypt : Draws → Database → Option Database
  reencrypt draws db =
      database_of (each (reencrypt_column draws) db.columns) (each (reencrypt_spec draws) db.specs)

-- The pending file; `cut` is one that holds no whole key.
pub data Pending : Type 0 where
  absent cut : Pending
  holds : ℕ → Pending

pub record Disk : Type 0 where
  pub configured : ℕ
  pub pending : Pending
  pub database : Database

pub record Ring : Type 0 where
  pub current : ℕ
  pub previous : Option ℕ

unfoldable pub ring_rotate : ℕ → Ring → Ring
ring_rotate next ring = record { current = next; previous = some ring.current }

-- The ring opens with its current key and, failing that, with the one before.
abbrev pub or_previous : Option Text → Option Text → Option Text
or_previous (some plain) other = some plain
or_previous none other = other

abbrev pub unlock_previous : Cipher → Option ℕ → Text → Text → Name → Option Text
unlock_previous c none nonce sealed name = none
unlock_previous c (some key) nonce sealed name = c.unlock key nonce sealed name

unfoldable pub ring_unlock : Cipher → Ring → Text → Text → Name → Option Text
ring_unlock c ring nonce sealed name =
    or_previous (c.unlock ring.current nonce sealed name)
      (unlock_previous c ring.previous nonce sealed name)

-- Where the key comes from, and whether the database is on the disk at all.
pub record Place : Type 0 where
  pub has_key_file : Bool
  pub from_env : Bool
  pub in_memory : Bool

-- What the system answers: the key file is written and synced, or written and not known to be, or
-- cut short, or could not be opened; the statements of the transaction go through; its commit does, or fails before or after
-- it reached the disk. A crash is a fault at one of two points.
pub data Written : Type 0 where
  synced not_synced cut_short not_opened : Written

pub data Commit : Type 0 where
  committed failed_before failed_after : Commit

pub data Fault : Type 0 where
  no_fault after_key after_commit : Fault

pub record Answers : Type 0 where
  pub written : Written
  pub begins : Bool
  pub commit : Commit
  pub removes : Bool
  pub renames : Bool
  pub fault : Fault

pub data RotateError : Type 0 where
  not_encrypted rotation_pending not_written stopped not_reencrypted not_moved : RotateError

pub record Rotated : Type 0 where
  pub error : Option RotateError
  pub disk : Disk
  pub ring : Ring

abbrev pub failed_with : RotateError → Ring → Disk → Rotated
failed_with e ring disk = record { error = some e; disk = disk; ring = ring }

abbrev pub stop_after_key : Fault → Rotated → Rotated → Rotated
stop_after_key after_key stop rest = stop
stop_after_key _ stop rest = rest

abbrev pub stop_after_commit : Fault → Rotated → Rotated → Rotated
stop_after_commit after_commit stop rest = stop
stop_after_commit _ stop rest = rest

abbrev pub if_synced : Written → Rotated → Rotated → Rotated
if_synced synced goes_on fails = goes_on
if_synced _ goes_on fails = fails

abbrev pub is_absent : Pending → Bool
is_absent absent = true
is_absent _ = false

-- Whether the commit was reached, whether it went through, and the database then.
abbrev pub committed_to : Commit → Database → Option Database → Bool × Bool × Database
committed_to commit db none = (false, false, db)
committed_to committed db (some after) = (true, true, after)
committed_to failed_before db (some after) = (true, false, db)
committed_to failed_after db (some after) = (true, false, after)

module _ (c : Cipher) (p : Place) (a : Answers) where
  unfoldable pub run_reencrypt : ℕ → ℕ → Draws → Database → Bool × Bool × Database
  run_reencrypt old next draws db =
      if a.begins
      then committed_to a.commit db (reencrypt c old next draws db)
      else (false, false, db)

  -- What stands in the pending file.
  abbrev pub written_to : ℕ → Written → Pending → Pending
  written_to next synced pending = holds next
  written_to next not_synced pending = holds next
  written_to next cut_short pending = cut
  written_to next not_opened pending = pending

  -- The end of a rotation whose transaction ended as `t` says; the key that is pending is `next`.
  unfoldable pub finish_rotation : ℕ → Ring → Disk → Bool × Bool × Database → Rotated
  finish_rotation next ring disk (reached, true, db) =
      let kept = record disk { database = db } in
      let rotated = ring_rotate next ring in
      let moved = record kept { configured = next; pending = absent } in
      stop_after_commit a.fault (failed_with stopped rotated kept) (
        if p.has_key_file && not p.from_env
        then (if a.renames
            then record { error = none; disk = moved; ring = rotated }
            else failed_with not_moved rotated kept)
        else record { error = none; disk = kept; ring = rotated })
  finish_rotation next ring disk (reached, false, db) =
      let kept = record disk { database = db } in
      let discards = p.has_key_file && (not reached || key_fits c ring.current db) && a.removes in
      record {
        error = some not_reencrypted;
        disk = if discards then record kept { pending = absent } else kept;
        ring = ring;
      }

  -- From the key that is written on.
  unfoldable pub rotate_data : ℕ → Draws → Ring → Disk → Rotated
  rotate_data next draws ring disk =
      stop_after_key a.fault (failed_with stopped ring disk)
        (finish_rotation next ring disk (run_reencrypt ring.current next draws disk.database))

  unfoldable pub rotate_key : ℕ → Draws → Ring → Disk → Rotated
  rotate_key next draws ring disk =
      let written = record disk { pending = written_to next a.written disk.pending } in
      if not p.has_key_file
      then (if p.in_memory
          then rotate_data next draws ring disk
          else failed_with not_encrypted ring disk)
      else if p.from_env && not (is_absent disk.pending)
      then failed_with rotation_pending ring disk
      else if_synced a.written (rotate_data next draws ring written)
          (failed_with not_written ring written)

pub data StartError : Type 0 where
  cannot_remove unsettled use_new_key not_completed : StartError

pub data Started : Type 0 where
  runs : Ring → Disk → Started
  refuses : StartError → Disk → Started

module _ (c : Cipher) (p : Place) (removes renames : Bool) where
  abbrev pub started_with : ℕ → Option ℕ → Disk → Started
  started_with key previous disk = runs (record { current = key; previous = previous }) disk

  -- A pending file beside a key that does not fit.
  unfoldable pub complete_rotation : Disk → Pending → Started
  complete_rotation disk absent = started_with disk.configured none disk
  complete_rotation disk cut = refuses unsettled disk
  complete_rotation disk (holds next) =
      if not (key_fits c next disk.database)
      then refuses unsettled disk
      else if p.from_env
      then refuses use_new_key disk
      else if not renames
      then refuses not_completed disk
      else started_with next (some disk.configured)
          (record disk { configured = next; pending = absent })

  unfoldable pub settle_rotation : Disk → Started
  settle_rotation disk =
      if not p.has_key_file || is_absent disk.pending
      then started_with disk.configured none disk
      else if key_fits c disk.configured disk.database
      then (if removes
          then started_with disk.configured none (record disk { pending = absent })
          else refuses cannot_remove disk)
      else complete_rotation disk disk.pending
