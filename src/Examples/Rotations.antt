-- ===== src/Examples/Rotations.antt =====
-- Rotations of a small database, under a cipher that writes its key in front of what it seals.
use shipwick.Base.{
  List, ℕ, ◌+◌, ◌≡◌, ◌⊎◌, inl, inr, ap, refl, true, false, not, ◌&&◌, Option, none, some, [], ◌∷◌,
  ◌++◌, ◌==◌, ltb, if◌then◌else◌, length, drop, length-drop, arith, Bool-cases,
}
use shipwick.Sealing.{
  Text, row_key, variable, log_option, Cipher, seal, open_value, seal_values, open_values,
  open_spec, seal_spec,
}
use shipwick.Sealing.{Values}
use shipwick.Sealing.Values.{IsCipher}
use shipwick.Sealing.Legacy.{encrypt_legacy, Reads, IsPassed, encrypt_legacy-IsPassed}
use shipwick.Rotation.{
  Database, each, open_cell, open_column, open_stored, open_all, Draws, reencrypt, reencrypt_cell,
  reencrypt_column, reencrypt_spec, kept_or_sealed, absent, holds, Disk, Ring, Place, synced,
  committed, failed_before, failed_after, no_fault, Answers, Rotated, not_moved, rotate_key,
  rotate_data, run_reencrypt, finish_rotation, ring_rotate, settle_rotation,
}
use shipwick.Rotation.Each.{Resealed}
use shipwick.Rotation.Contents.{reencrypt-Resealed}
use shipwick.Rotation.Crashes.{IsRecovered, AsksForKey}
use shipwick.Rotation.Stops.{rotate_key-settle_rotation, rotate_key-from_env}
use shipwick.Rotation.Unfit.{HasColumn}
use shipwick.Rotation.Losses.{rotate_key-twice}
use shipwick.Rotation.Lost.{in_key_file, IsLost, IsUnopened}

abbrev first_byte : Text → ℕ
first_byte [] = 0
first_byte (x ∷ xs) = x

abbrev zeros : Text
zeros = 0 ∷ 0 ∷ 0 ∷ 0 ∷ 0 ∷ 0 ∷ 0 ∷ 0 ∷ 0 ∷ 0 ∷ 0 ∷ 0 ∷ 0 ∷ 0 ∷ 0 ∷ []

abbrev unlock_toy : ℕ → Text → Option Text
unlock_toy key sealed =
    if not (ltb (length sealed) 16) && first_byte sealed == key then some (drop 16 sealed) else none

abbrev toy : Cipher
toy = record {
  nonce_size = 1;
  lock = λ key nonce plain name. key ∷ zeros ++ plain;
  unlock = λ key nonce sealed name. unlock_toy key sealed;
  encode = λ raw. raw;
  decode = λ text. some text;
}

unlock_toy-length :
    (key : ℕ) (sealed plain : Text)
    → unlock_toy key sealed ≡ some plain
    → length sealed ≡ length plain + 16
unlock_toy-length key sealed plain h =
    elim (Bool-cases (not (ltb (length sealed) 16) && first_byte sealed == key)) [
      | inl opens ↦
          let e : drop 16 sealed ≡ plain = cc (h, opens) in
          ground (arith, opens, ap length e, length-drop 16 sealed)
      | inr shut ↦ absurd (cc (h, shut))
    ]

toy-IsCipher : IsCipher toy
toy-IsCipher = record {
  decode-encode = λ raw. refl;
  unlock-lock = λ key nonce plain name. ground arith;
  unlock_other = λ key other nonce plain name apart. ground (arith, apart);
  unlock-length = λ key nonce sealed name plain h. unlock_toy-length key sealed plain h;
  decode-length = λ text raw h. omega (arith, ap length (some_text text raw h));
}
  where
    some_text : (text raw : Text) → ◌≡◌ {A = Option Text} (some text) (some raw) → raw ≡ text
    some_text text raw h = cc h

abbrev draws : Draws
draws = record { for_column = λ n name. n ∷ []; for_spec = λ n name. n ∷ [] }

abbrev plain : Database
plain = record {
  columns = (0, (row_key (7 ∷ []), 1 ∷ 2 ∷ []) ∷ []) ∷ [];
  specs =
      (
        4,
        record {
          env = (variable (65 ∷ []), 5 ∷ []) ∷ [];
          basic_auth = [];
          options = (log_option (66 ∷ []), 9 ∷ []) ∷ [];
        },
      )
      ∷ [];
}

-- The option of the logs was written before those were sealed.
abbrev under : ℕ → Database
under key = record {
  columns =
      (0, (row_key (7 ∷ []), seal toy key (3 ∷ []) (row_key (7 ∷ [])) (1 ∷ 2 ∷ [])) ∷ []) ∷ [];
  specs =
      (
        4,
        record {
          env = (variable (65 ∷ []), seal toy key (3 ∷ []) (variable (65 ∷ [])) (5 ∷ [])) ∷ [];
          basic_auth = [];
          options = (log_option (66 ∷ []), 9 ∷ []) ∷ [];
        },
      )
      ∷ [];
}

under_lem : open_all toy 10 (under 10) ≡ some plain
unfolding open_all open_column open_cell open_stored each open_spec open_values open_value seal
under_lem = refl

abbrev disk : Disk
disk = record { configured = 10; pending = absent; database = under 10 }

abbrev ring : Ring
ring = record { current = 10; previous = none }

-- A commit that fails though it reached the disk.
abbrev answers : Answers
answers = record {
  written = synced;
  begins = true;
  commit = failed_after;
  removes = true;
  renames = true;
  fault = no_fault;
}

abbrev in_env : Place
in_env = record { has_key_file = true; from_env = true; in_memory = false }

reencrypt-Resealed_example : Resealed (open_all toy) 11 (reencrypt toy 10 11 draws (under 10)) plain
reencrypt-Resealed_example =
    reencrypt-Resealed toy toy-IsCipher 10 11 draws (λ n name. refl) (λ n name. refl) (under 10)
      plain under_lem

rotate_key-settle_rotation_example : IsRecovered toy plain (
    settle_rotation toy in_key_file true true
      (rotate_key toy in_key_file answers 11 draws ring disk).disk)
rotate_key-settle_rotation_example =
    rotate_key-settle_rotation toy toy-IsCipher plain in_key_file refl answers 11 draws ring
      (λ n name. refl) (λ n name. refl) disk refl refl under_lem

rotate_key-from_env_example :
    (let left = (rotate_key toy in_env answers 11 draws ring disk).disk in
      IsRecovered toy plain (settle_rotation toy in_env true true left)
      ⊎ AsksForKey toy plain in_env left)
rotate_key-from_env_example =
    rotate_key-from_env toy toy-IsCipher plain in_env refl answers 11 draws ring (λ n name. refl)
      (λ n name. refl) disk refl refl under_lem

-- The same under the key 11.
abbrev again : Database
again = record {
  columns = (0, (row_key (7 ∷ []), seal toy 11 (0 ∷ []) (row_key (7 ∷ [])) (1 ∷ 2 ∷ [])) ∷ []) ∷ [];
  specs =
      (
        4,
        record {
          env = (variable (65 ∷ []), seal toy 11 (4 ∷ []) (variable (65 ∷ [])) (5 ∷ [])) ∷ [];
          basic_auth = [];
          options = (log_option (66 ∷ []), 9 ∷ []) ∷ [];
        },
      )
      ∷ [];
}

reencrypt-again : reencrypt toy 10 11 draws (under 10) ≡ some again
unfolding reencrypt reencrypt_column reencrypt_cell reencrypt_spec kept_or_sealed each open_spec
    open_values open_value seal_spec seal_values seal
reencrypt-again = refl

-- A rotation whose rename fails, and one whose commit does.
abbrev rename_fails : Answers
rename_fails = record answers { commit = committed; renames = false }

abbrev commit_fails : Answers
commit_fails = record answers { commit = failed_before }

first_rotation : rotate_key toy in_key_file rename_fails 11 draws ring disk ≡ record {
  error = some not_moved;
  disk = record { configured = 10; pending = holds 11; database = again };
  ring = record { current = 11; previous = some 10 };
}
unfolding rotate_key rotate_data run_reencrypt finish_rotation ring_rotate
first_rotation = rw reencrypt-again refl

first_column : HasColumn (under 10)
first_column = record {
  number = 0;
  name = row_key (7 ∷ []);
  stored = seal toy 10 (3 ∷ []) (row_key (7 ∷ [])) (1 ∷ 2 ∷ []);
  values = [];
  columns = [];
  is_first = refl;
}

rotate_key-twice_example :
    (let first = rotate_key toy in_key_file rename_fails 11 draws ring disk in
      let second = rotate_key toy in_key_file commit_fails 12 draws first.ring first.disk in
      IsRecovered toy plain (settle_rotation toy in_key_file true true first.disk)
      × IsLost toy second.disk
      × IsUnopened toy (settle_rotation toy in_key_file true true second.disk))
rotate_key-twice_example =
    rotate_key-twice toy toy-IsCipher plain rename_fails commit_fails 11 12 draws ring disk true
      true (λ n name. refl) (λ n name. refl) refl under_lem first_column (λ e. cc e) (λ e. cc e)
      (ap (λ (r : Rotated). r.error) first_rotation) (inr (inr (refl, inr (inr refl))))

-- One value is sealed, one stands as it was written.
abbrev old_records : List (ℕ × Values)
old_records =
    (
      4,
      (variable (65 ∷ []), seal toy 10 (3 ∷ []) (variable (65 ∷ [])) (5 ∷ []))
          ∷ (variable (66 ∷ []), 9 ∷ [])
          ∷ [],
    )
    ∷ []

abbrev old_values : List Values
old_values = ((variable (65 ∷ []), 5 ∷ []) ∷ (variable (66 ∷ []), 9 ∷ []) ∷ []) ∷ []

old_Reads : Reads toy 10 true old_records old_values
unfolding open_values open_value seal
old_Reads = (refl, tt)

encrypt_legacy-IsPassed_example :
    IsPassed toy toy-IsCipher 10
      (λ id name. id ∷ [])
      (λ id name. refl)
      (encrypt_legacy toy 10 (λ id name. id ∷ []) old_records)
      old_values
encrypt_legacy-IsPassed_example =
    encrypt_legacy-IsPassed toy toy-IsCipher 10 (λ id name. id ∷ []) (λ id name. refl) old_records
      old_values old_Reads
