-- ===== src/Uploads.antt =====
-- How an archive goes to the bucket: Upload of agent/internal/backup/multipart.go. The source is
-- its bytes. What the bucket and the context answer to each request is an argument; what the bucket
-- makes of the parts of an upload is not modelled.
pub mod Parts
pub mod Whole
use shipwick.Base.{
  ℕ, zero, suc, ◌+◌, ◌-◌, ◌*◌, ◌/◌, min, Bool, true, false, not, ◌&&◌, ◌||◌, Option, none, some,
  List, [], ◌∷◌, ltb, leb, ◌==◌, if◌then◌else◌, length, take, drop,
}

abbrev pub max_parts : ℕ
max_parts = 10_000

abbrev pub max_object_bytes : ℕ
max_object_bytes = 5_497_558_138_880

abbrev pub part_attempts : ℕ
part_attempts = 3

abbrev pub mebibyte : ℕ
mebibyte = 1_048_576

unfoldable pub part_size_for : ℕ → ℕ → ℕ
part_size_for size usual =
    if leb size (usual * max_parts)
    then usual
    else (size / max_parts + mebibyte) / mebibyte * mebibyte

-- A request that sends a part is taken, may be sent again, or not.
pub data Tried : Type 0 where
  took retries gives_up : Tried

-- What each request is answered; a part is asked for by its number and the attempt.
pub record Answers : Type 0 where
  pub puts : Bool
  pub creates : Bool
  pub notes : Bool
  pub tries : ℕ → ℕ → Tried
  pub completes : Bool
  pub aborts : Bool

pub record Part : Type 0 where
  pub number : ℕ
  pub body : List ℕ

-- The archive stands in the bucket as one object, or as the parts of an upload that is completed.
pub data Outcome : Type 0 where
  stored : List ℕ → Outcome
  completed : List Part → Outcome
  too_large not_stored not_created aborted parts_remain : Outcome

abbrev pub after_try : Tried → Bool → Bool
after_try took more = true
after_try retries more = more
after_try gives_up more = false

abbrev pub cons_part : Part → Option (List Part) → Option (List Part)
cons_part p none = none
cons_part p (some ps) = some (p ∷ ps)

module _ (a : Answers) where
  -- The attempts that are left, from the given one on.
  unfoldable pub send_part : ℕ → ℕ → ℕ → Bool
  send_part number attempt zero = false
  send_part number attempt (suc left) =
      after_try (a.tries number attempt) (send_part number (attempt + 1) left)

  -- The loop over the offsets; the fuel is a bound on the number of parts.
  unfoldable pub send_parts : List ℕ → ℕ → ℕ → ℕ → ℕ → Option (List Part)
  send_parts src part_size zero offset number = some []
  send_parts src part_size (suc fuel) offset number =
      let size = min part_size (length src - offset) in
      let body = take size (drop offset src) in
      let rest = send_parts src part_size fuel (offset + part_size) (number + 1) in
      if not (ltb offset (length src))
      then some []
      else if send_part number 1 part_attempts
      then cons_part (record { number = number; body = body }) rest
      else none

  -- An upload that does not complete is aborted.
  abbrev pub finished : Option (List Part) → Outcome
  finished none = if a.aborts then aborted else parts_remain
  finished (some parts) =
      if a.completes then completed parts else (if a.aborts then aborted else parts_remain)

  unfoldable pub upload : List ℕ → ℕ → Outcome
  upload src usual =
      let size = length src in
      if leb size usual
      then (if a.puts then stored src else not_stored)
      else if ltb max_object_bytes size
      then too_large
      else if not a.creates
      then not_created
      else if not a.notes
      then finished none
      else finished (send_parts src (part_size_for size usual) size 0 1)
