-- ===== src/Rotation/Crashes.antt =====
-- A rotation that stops anywhere, and the start after it.
use shipwick.Base.{
  ℕ, ◌≡◌, ◌∙◌, ap, refl, inl, inr, ◌⊎◌, Bool, true, false, not, Option, none, some, Bool-cases,
  is_none,
}
use shipwick.Sealing.{Cipher}
use shipwick.Rotation.{
  Database, open_all, key_fits, Pending, absent, cut, holds, Disk, Ring, Place, is_absent, Started,
  runs, refuses, use_new_key, complete_rotation, settle_rotation,
}

-- The key that the agent starts with opens everything, as `plain`.
abbrev pub HasKey : Cipher → Database → Disk → Type 0
HasKey c plain disk = open_all c disk.configured disk.database ≡ some plain

-- The pending key does, and no key opens anything else.
pub record HasPending (c : Cipher) (plain : Database) (disk : Disk) : Type 0 where
  pub key : ℕ
  pub is_pending : disk.pending ≡ holds key
  pub opens : open_all c key disk.database ≡ some plain
  pub only : (other : ℕ) (q : Database) → open_all c other disk.database ≡ some q → q ≡ plain

abbrev pub IsSafe : Cipher → Database → Disk → Type 0
IsSafe c plain disk = HasKey c plain disk ⊎ HasPending c plain disk

-- The agent runs with the key that it will start with next, which opens everything; nothing is
-- pending.
pub record IsRecovered (c : Cipher) (plain : Database) (s : Started) : Type 0 where
  pub ring : Ring
  pub disk : Disk
  pub is_running : s ≡ runs ring disk
  pub is_current : ring.current ≡ disk.configured
  pub is_done : disk.pending ≡ absent
  pub opens : open_all c disk.configured disk.database ≡ some plain

is_absent_lem : (pending : Pending) → is_absent pending ≡ true → pending ≡ absent
is_absent_lem absent h = refl
is_absent_lem cut h = absurd (cc h)
is_absent_lem (holds key) h = absurd (cc h)

-- The start refuses and names the pending key; with that key it will run.
pub record AsksForKey (c : Cipher) (plain : Database) (p : Place) (disk : Disk) : Type 0 where
  pub key : ℕ
  pub is_pending : disk.pending ≡ holds key
  pub is_refused : settle_rotation c p true true disk ≡ refuses use_new_key disk
  pub recovers :
      IsRecovered c plain (settle_rotation c p true true (record disk { configured = key }))

pub key_fits_lem :
    (c : Cipher) (key : ℕ) (db plain : Database)
    → open_all c key db ≡ some plain
    → key_fits c key db ≡ true
unfolding key_fits
key_fits_lem c key db plain h = rw h refl

record Opens (o : Option Database) : Type 0 where
  plain : Database
  is_plain : o ≡ some plain

opens_lem : (o : Option Database) → not (is_none o) ≡ true → Opens o
opens_lem none h = absurd (cc h)
opens_lem (some q) h = record { plain = q; is_plain = refl }

module _ (c : Cipher) (plain : Database) where
  -- A key that fits a database whose contents are settled opens those contents.
  pub fitting :
      (key : ℕ) (db : Database)
      → ((other : ℕ) (q : Database) → open_all c other db ≡ some q → q ≡ plain)
      → key_fits c key db ≡ true
      → open_all c key db ≡ some plain
  unfolding key_fits
  fitting key db only h =
      let o = opens_lem (open_all c key db) h in o.is_plain ∙ ap some (only key o.plain o.is_plain)

  -- The start after a safe disk.
  module _ (p : Place) (has_key_file : p.has_key_file ≡ true) where
    pub settle-HasKey :
        (renames : Bool) (disk : Disk)
        → HasKey c plain disk
        → IsRecovered c plain (settle_rotation c p true renames disk)
    unfolding settle_rotation
    settle-HasKey renames disk h =
        let fits : key_fits c disk.configured disk.database ≡ true =
          key_fits_lem c disk.configured disk.database plain h in
        elim (Bool-cases (is_absent disk.pending)) [
          | inl gone ↦ record {
            ring = record { current = disk.configured; previous = none };
            disk = disk;
            is_running = rw (has_key_file, gone) refl;
            is_current = refl;
            is_done = is_absent_lem disk.pending gone;
            opens = h;
          }
          | inr stays ↦ record {
            ring = record { current = disk.configured; previous = none };
            disk = record disk { pending = absent };
            is_running = rw (has_key_file, stays, fits) refl;
            is_current = refl;
            is_done = refl;
            opens = h;
          }
        ]

    pub settle-HasPending :
        (not_env : p.from_env ≡ false) (disk : Disk)
        → HasPending c plain disk
        → IsRecovered c plain (settle_rotation c p true true disk)
    unfolding settle_rotation complete_rotation
    settle-HasPending not_env disk h =
        elim (Bool-cases (key_fits c disk.configured disk.database)) [
          | inl fits ↦ settle-HasKey true disk (fitting disk.configured disk.database h.only fits)
          | inr unfit ↦
              let fits : key_fits c h.key disk.database ≡ true =
                key_fits_lem c h.key disk.database plain h.opens in
              record {
                ring = record { current = h.key; previous = some disk.configured };
                disk = record disk { configured = h.key; pending = absent };
                is_running = rw (has_key_file, h.is_pending, unfit, fits, not_env) refl;
                is_current = refl;
                is_done = refl;
                opens = h.opens;
              }
        ]

    pub settle_from_env :
        (env : p.from_env ≡ true) (disk : Disk)
        → HasPending c plain disk
        → IsRecovered c plain (settle_rotation c p true true disk) ⊎ AsksForKey c plain p disk
    unfolding settle_rotation complete_rotation
    settle_from_env env disk h = elim (Bool-cases (key_fits c disk.configured disk.database)) [
      | inl fits ↦ inl (settle-HasKey true disk (fitting disk.configured disk.database h.only fits))
      | inr unfit ↦
          let fits : key_fits c h.key disk.database ≡ true =
            key_fits_lem c h.key disk.database plain h.opens in
          inr (record {
            key = h.key;
            is_pending = h.is_pending;
            is_refused = simp (has_key_file, h.is_pending, unfit, fits, env) refl;
            recovers = settle-HasKey true (record disk { configured = h.key }) h.opens;
          })
    ]
