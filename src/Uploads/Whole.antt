-- ===== src/Uploads/Whole.antt =====
-- What an upload leaves in the bucket.
use shipwick.Base.{
  ℕ, zero, suc, ◌+◌, ◌≤◌, ◌<◌, ◌≡◌, refl, subst, inl, inr, Bool, true, false, not, Option, none,
  some, List, [], ◌∷◌, ltb, leb, if◌then◌else◌, length, Bool-cases, both_branches, arith,
}
use shipwick.Uploads.{
  Answers, Part, took, retries, Outcome, stored, completed, too_large, not_stored, not_created,
  aborted, parts_remain, cons_part, part_size_for, max_parts, max_object_bytes, part_attempts,
  send_part, send_parts, finished, upload,
}
use shipwick.Uploads.Parts.{bodies, IsCut, part_size_for_fits, send_parts-CutFrom}

-- What is in the bucket is the source: one object, or parts of one size, numbered from 1 on and at
-- most as many as the service takes.
abbrev pub IsWhole : List ℕ → ℕ → Outcome → Type 0
IsWhole src usual (stored bytes) = bytes ≡ src
IsWhole src usual (completed parts) =
    (bodies parts ≡ src)
    × IsCut (part_size_for (length src) usual) 1 parts
    × (length parts ≤ max_parts)
IsWhole src usual _ = Unit

abbrev pub is_stored : Outcome → Bool
is_stored (stored bytes) = true
is_stored (completed parts) = true
is_stored _ = false

-- The bucket takes the part at one of the attempts from the given one on, and asks for another one
-- at those before.
abbrev pub TakenWithin : Answers → ℕ → ℕ → ℕ → Type 0
TakenWithin a number first attempts =
    (i : ℕ) × (i < attempts)
    × ((k : ℕ) → k < i → a.tries number (first + k) ≡ retries)
    × (a.tries number (first + i) ≡ took)

record Sent (o : Option (List Part)) : Type 0 where
  parts : List Part
  is_sent : o ≡ some parts

cons_part-Sent : (p : Part) (o : Option (List Part)) → Sent o → Sent (cons_part p o)
cons_part-Sent p o s = record { parts = p ∷ s.parts; is_sent = rw s.is_sent refl }

module _ (a : Answers) (src : List ℕ) (usual : ℕ) (some_size : 0 < usual) where
  abbrev sent : Option (List Part)
  sent = send_parts a src (part_size_for (length src) usual) (length src) 0 1

  finished-IsWhole : (o : Option (List Part)) → sent ≡ o → IsWhole src usual (finished a o)
  finished-IsWhole none e =
      both_branches (IsWhole src usual) a.aborts aborted parts_remain (λ k. tt) (λ k. tt)
  finished-IsWhole (some parts) e =
      let fits = part_size_for_fits (length src) usual some_size in
      let c =
        send_parts-CutFrom a src (part_size_for (length src) usual) fits.0 (length src) 0 1 parts
          (omega arith) e in
      both_branches (IsWhole src usual) a.completes (completed parts)
        (if a.aborts then aborted else parts_remain)
        (λ k. (c.all, c.cut, c.few max_parts (omega (arith, fits.1))))
        (λ k. both_branches (IsWhole src usual) a.aborts aborted parts_remain (λ l. tt) (λ l. tt))

  -- Whatever the bucket answers, what it was told to keep is the whole archive: a single object of
  -- all its bytes, or the parts of an upload that is completed, which are those bytes one after the
  -- other, numbered from 1 on, none empty, none larger than the size that was chosen, and no more
  -- than the service takes.
  pub upload-IsWhole : IsWhole src usual (upload a src usual)
  unfolding upload
  upload-IsWhole =
      let size = length src in
      let P = IsWhole src usual in
      both_branches P (leb size usual) (if a.puts then stored src else not_stored) _
        (λ e. both_branches P a.puts (stored src) not_stored (λ k. refl) (λ k. tt))
        (λ e.
          both_branches P (ltb max_object_bytes size) too_large _ (λ k. tt)
            (λ k.
              both_branches P (not a.creates) not_created _ (λ l. tt)
                (λ l.
                  both_branches P (not a.notes) (finished a none) (finished a sent)
                    (λ m. both_branches P a.aborts aborted parts_remain (λ n. tt) (λ n. tt))
                    (λ m. finished-IsWhole sent refl))))

  send_parts_ends :
      ((number : ℕ) → send_part a number 1 part_attempts ≡ true)
      → (size fuel offset number : ℕ) → Sent (send_parts a src size fuel offset number)
  unfolding send_parts
  send_parts_ends takes size zero offset number = record { parts = []; is_sent = refl }
  send_parts_ends takes size (suc fuel) offset number = rw (takes number) (
      both_branches Sent (not (ltb offset (length src))) (some []) _
        (λ e. record { parts = []; is_sent = refl })
        (λ e.
          cons_part-Sent _ (send_parts a src size fuel (offset + size) (number + 1))
            (send_parts_ends takes size fuel (offset + size) (number + 1))))

  -- A part that the bucket takes at one of the attempts that are left is sent.
  TakenWithin-send_part :
      (number attempt left : ℕ)
      → TakenWithin a number attempt left
      → send_part a number attempt left ≡ true
  unfolding send_part
  TakenWithin-send_part number attempt zero h = absurd (omega (arith, h.1))
  TakenWithin-send_part number attempt (suc left) (zero, at_once, before, is) =
      rw (subst (λ i. a.tries number i ≡ took) {y = attempt} (omega arith) is) refl
  TakenWithin-send_part number attempt (suc left) (suc i, within, before, is) =
      let again : a.tries number attempt ≡ retries =
        subst (λ k. a.tries number k ≡ retries) {y = attempt} (omega arith)
          (before 0 (omega arith)) in
      rw again (
        TakenWithin-send_part number (attempt + 1) left (
          i,
          omega (arith, within),
          λ k lt.
              subst (λ m. a.tries number m ≡ retries) {y = attempt + 1 + k} (omega arith)
                (before (suc k) (omega (arith, lt))),
          subst (λ m. a.tries number m ≡ took) {y = attempt + 1 + i} (omega arith) is,
        ))

  -- An archive that is not too large is stored if the bucket takes each part at the first, the
  -- second or the third attempt, having asked for another one until then, and everything else at
  -- once.
  pub upload_stores :
      length src ≤ max_object_bytes
      → a.puts ≡ true
      → a.creates ≡ true
      → a.notes ≡ true
      → a.completes ≡ true
      → ((number : ℕ) → TakenWithin a number 1 3)
      → is_stored (upload a src usual) ≡ true
  unfolding upload
  upload_stores small puts creates notes completes takes =
      let s =
        send_parts_ends (λ number. TakenWithin-send_part number 1 3 (takes number))
          (part_size_for (length src) usual) (length src) 0 1 in
      let large : ltb max_object_bytes (length src) ≡ false = ground (arith, small) in
      elim (Bool-cases (leb (length src) usual)) [
        | inl one ↦ simp (one, puts) refl
        | inr many ↦ simp (many, large, creates, notes, s.is_sent, completes) refl
      ]
